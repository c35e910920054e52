-- ===== src/Token/Tracking.antt =====
-- The tracker against the ledger: the supply tracker's entry for NEAR follows the calls of its owner.
use diamond_bot_v.Base.{
  ℕ, ◌+◌, ◌≤◌, ◌≡◌, ◌≢◌, ◌⊎◌, ◌==◌, sym, ◌∙◌, inl, inr, ap, String, some, [], arith, Bool-cases,
}
use diamond_bot_v.Near.{AccountId, Env, Result, ok, Result-cases, add128, checked_sub}
use diamond_bot_v.Ft.{FungibleToken}
use diamond_bot_v.Bridge.{LayerZeroParams}
use diamond_bot_v.Supply
use diamond_bot_v.Supply.{
  ChainSupply, SupplyTracker, chain_supply, update_chain_supply, get_chain_supply,
  get_total_circulating_supply,
}
use diamond_bot_v.Supply.Total.{sum_supplies, total_is_sum, owner_updates_supply}
use diamond_bot_v.Token.{
  DiamondToken, new, initial_supply, mint, burn, bridge_out, bridge_in, check_caps, update_near,
}
use diamond_bot_v.Token.Calls.{first}
use diamond_bot_v.Token.Cap.{mint_parts, burn_parts, bridge_out_parts, bridge_in_parts, new_parts}

module _ {T : Type 0} where
  -- What the owner's update writes into the entry for NEAR.
  update_near_owned :
      (env : Env) (change : ℕ → Result ℕ) (t : DiamondToken T) (s : SupplyTracker) (c : ChainSupply)
      → env.predecessor ≡ t.supply_tracker.owner_id
      → get_chain_supply t.near_chain_id t.supply_tracker ≡ some c
      → update_near env change t ≡ ok s
      → (n : ℕ) × (change c.supply ≡ ok n)
        × (get_chain_supply t.near_chain_id s
            ≡ some (chain_supply env t.near_chain_id c.chain_name n))
        × (sum_supplies s.supplies + c.supply ≡ sum_supplies t.supply_tracker.supplies + n)
        × (s.owner_id ≡ t.supply_tracker.owner_id)
  unfolding update_near
  update_near_owned env change t s c own e h = elim (Result-cases (change c.supply)) [
    | inl (n, k) ↦
        let written =
          owner_updates_supply env t.near_chain_id n c.chain_name t.supply_tracker own in
        (n, k, ground (arith, written), ground (arith, written), ground (arith, written))
    | inr (x, k) ↦ absurd (ground arith)
  ]

module _ (ft : FungibleToken) where
  open ft use {
    Token, balance_of, balance-withdraw, balance-deposit, empty, total-empty, total-register,
    deposit, withdraw, total_supply, total-deposit, total-withdraw, has_account, register,
  }

  pub mint_tracks :
      (env : Env) (account amount : ℕ) (t t' : DiamondToken Token)
      → mint ft env account amount t ≡ ok t'
      → (update_near env (λ n. add128 n amount) t ≡ ok t'.supply_tracker)
        × (t'.near_chain_id ≡ t.near_chain_id)
        × (t'.owner_id ≡ t.owner_id)
  unfolding mint
  mint_tracks env account amount t t' h = ground arith

  pub burn_tracks :
      (env : Env) (amount : ℕ) (t t' : DiamondToken Token)
      → burn ft env amount t ≡ ok t'
      → (update_near env (λ n. checked_sub n amount) t ≡ ok t'.supply_tracker)
        × (t'.near_chain_id ≡ t.near_chain_id)
        × (t'.owner_id ≡ t.owner_id)
  unfolding burn
  burn_tracks env amount t t' h = ground arith

  -- A mint that goes through is the owner's, adds its amount to the ledger's total, and found both the
  -- total on NEAR and the sum over all chains with the amount within the maximum.
  pub mint_within_caps :
      (env : Env) (account amount : ℕ) (t t' : DiamondToken Token)
      → mint ft env account amount t ≡ ok t'
      → (env.predecessor ≡ t.owner_id)
        × (total_supply t'.token ≡ total_supply t.token + amount)
        × (total_supply t'.token ≤ t.max_supply)
        × (sum_supplies t.supply_tracker.supplies + amount ≤ t.max_supply)
  unfolding check_caps
  mint_within_caps env account amount t t' h =
      let (owner, caps, made, same) = mint_parts ft env account amount t t' h in
      ground
        (arith, total-deposit account amount t.token t'.token made, total_is_sum t.supply_tracker)

  -- The entry for NEAR exists and shows the ledger's total.
  abbrev pub IsSynced : DiamondToken Token → Type 0
  IsSynced t =
      (c : ChainSupply) × (get_chain_supply t.near_chain_id t.supply_tracker ≡ some c)
      × (c.supply ≡ total_supply t.token)
      × (t.supply_tracker.owner_id ≡ t.owner_id)

  -- Where NEAR's entry in the tracker shows the ledger's total and token and tracker have one owner,
  -- a mint that goes through keeps it so, and adds its amount to the sum over all chains.
  pub mint-IsSynced :
      (env : Env) (account amount : ℕ) (t t' : DiamondToken Token)
      → IsSynced t
      → mint ft env account amount t ≡ ok t'
      → IsSynced t'
        × (sum_supplies t'.supply_tracker.supplies
            ≡ sum_supplies t.supply_tracker.supplies + amount)
  mint-IsSynced env account amount t t' (c, e, same, own) h =
      let (owner, caps, made, cap) = mint_parts ft env account amount t t' h in
      let (tracked, near, kept) = mint_tracks env account amount t t' h in
      let (n, change, entry, sums, own') =
        update_near_owned env _ t t'.supply_tracker c (owner ∙ sym own) e tracked in
      let more : n ≡ c.supply + amount = ground arith in
      let added = total-deposit account amount t.token t'.token made in
      (
        (
          chain_supply env t.near_chain_id c.chain_name n,
          rw near entry,
          omega (arith, added, more, same),
          own' ∙ own ∙ sym kept,
        ),
        omega (arith, sums, more),
      )

  -- Where NEAR's entry in the tracker shows the ledger's total and token and tracker have one owner,
  -- a burn of the owner that goes through keeps it so, and takes its amount off the sum over all
  -- chains.
  pub owner_burn-IsSynced :
      (env : Env) (amount : ℕ) (t t' : DiamondToken Token)
      → IsSynced t
      → env.predecessor ≡ t.owner_id
      → burn ft env amount t ≡ ok t'
      → IsSynced t'
        × (sum_supplies t'.supply_tracker.supplies + amount
            ≡ sum_supplies t.supply_tracker.supplies)
  owner_burn-IsSynced env amount t t' (c, e, same, own) o h =
      let (tracked, near, kept) = burn_tracks env amount t t' h in
      let (n, change, entry, sums, own') =
        update_near_owned env _ t t'.supply_tracker c (o ∙ sym own) e tracked in
      let taken =
        total-withdraw env.predecessor amount t.token t'.token
          (burn_parts ft env amount t t' h).0 in
      let less : n + amount ≡ c.supply = ground arith in
      (
        (
          chain_supply env t.near_chain_id c.chain_name n,
          rw near entry,
          omega (arith, taken, less, same),
          own' ∙ own ∙ sym kept,
        ),
        omega (arith, sums, less),
      )

  -- A deployment by the owner starts the tracker with the initial supply on NEAR and nothing else; a
  -- deployment by anyone else leaves the tracker empty, with the same tokens in the ledger.
  pub new_tracks :
      (env : Env) (owner lz : AccountId) (chain : ℕ) (t : DiamondToken Token)
      → new ft env owner lz chain ≡ ok t
      → (total_supply t.token ≡ initial_supply)
        × ((env.predecessor ≡ owner)
              × IsSynced t
              × (sum_supplies t.supply_tracker.supplies ≡ initial_supply)
            ⊎ (env.predecessor ≢ owner) × (t.supply_tracker.supplies ≡ []))
  unfolding new Supply.new update_chain_supply get_chain_supply
  new_tracks env owner lz chain t h =
      let (r, e, made, same) = new_parts ft env owner lz chain t h in
      let minted : total_supply t.token ≡ initial_supply = omega (
        arith,
        total-register owner empty r e,
        total-empty,
        total-deposit owner initial_supply r t.token made,
      ) in
      elim (Bool-cases (env.predecessor == owner)) [
        | inl own ↦ (
          minted,
          inl (
            ground arith,
            (
              chain_supply env chain "NEAR Protocol" initial_supply,
              ground arith,
              sym minted,
              ground arith,
            ),
            ground arith,
          ),
        )
        | inr foreign ↦ (minted, inr (ground arith, ground arith))
      ]

  -- Where a `bridge_out` and then a `bridge_in` of the same amount go through, the ledger's total is
  -- what it was, and the receiver is credited with exactly what the sender paid.
  pub bridge_round_trip :
      (env env' : Env) (to sender : String) (amount chain : ℕ) (lz : LayerZeroParams)
      (receiver : AccountId) (t t' t'' : DiamondToken Token)
      → first (bridge_out ft env to amount lz t) ≡ ok t'
      → first (bridge_in ft env' chain sender receiver amount t') ≡ ok t''
      → (total_supply t''.token ≡ total_supply t.token)
        × (balance_of env.predecessor t'.token + amount ≡ balance_of env.predecessor t.token)
        × (balance_of receiver t''.token ≡ balance_of receiver t'.token + amount)
  bridge_round_trip env env' to sender amount chain lz receiver t t' t'' out back =
      let (taken, same) = bridge_out_parts ft env to amount lz t t' out in
      let (r, kept, credit, caps, made, same') =
        bridge_in_parts ft env' chain sender receiver amount t' t'' back in
      (
        omega (
          arith,
          total-withdraw env.predecessor amount t.token t'.token taken,
          kept,
          total-deposit receiver amount r t''.token made,
        ),
        balance-withdraw env.predecessor amount t.token t'.token taken,
        balance-deposit receiver amount r t''.token made ∙ ap (λ n. n + amount) (credit receiver),
      )
