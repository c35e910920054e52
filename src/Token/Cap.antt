-- ===== src/Token/Cap.antt =====
-- The supply cap: no history of calls brings the ledger's total over the maximum.
use diamond_bot_v.Base.{
  ℕ, ◌+◌, ◌≤◌, ◌≡◌, refl, inl, inr, String, Option, List, [], ◌∷◌, arith, Bool-cases,
}
use diamond_bot_v.Near.{AccountId, Env, ok, Result-cases, >>=-eq-ok}
use diamond_bot_v.Ft.{FungibleToken, StandardCall}
use diamond_bot_v.Bridge.{LayerZeroParams}
use diamond_bot_v.Token.{
  DiamondToken, new, ft_transfer, mint, burn, bridge_out, bridge_in, check_caps, max_supply_const,
  initial_supply,
}
use diamond_bot_v.Token.Settings.{
  set_lz_endpoint, add_module_admin, add_module, transfer_ownership, set_chain_config,
  update_remote_chain_supply, set_supply_oracle,
}
use diamond_bot_v.Token.Calls.{
  Call, transfers, mints, burns, bridges_out, bridges_in, sets_lz_endpoint, adds_module_admin,
  transfers_ownership, adds_module, sets_chain_config, updates_remote_supply, sets_supply_oracle,
  calls_standard, call, run, first,
}

module _ (ft : FungibleToken) where
  open ft use {
    Token, empty, register, deposit, withdraw, transfer, total_supply, has_account, balance_of,
    balance-register, total-empty, total-register, total-deposit, total-withdraw, total-transfer,
    standard, total-standard,
  }

  check_caps_supply :
      (amount : ℕ) (t : DiamondToken Token)
      → check_caps ft amount t ≡ ok tt
      → total_supply t.token + amount ≤ t.max_supply
  unfolding check_caps
  check_caps_supply amount t h = ground arith

  -- What a call that goes through has passed, and the ledger that it writes.
  pub mint_parts :
      (env : Env) (account amount : ℕ) (t t' : DiamondToken Token)
      → mint ft env account amount t ≡ ok t'
      → (env.predecessor ≡ t.owner_id)
        × (check_caps ft amount t ≡ ok tt)
        × (deposit account amount t.token ≡ ok t'.token)
        × (t'.max_supply ≡ t.max_supply)
  unfolding mint
  mint_parts env account amount t t' h = ground arith

  pub burn_parts :
      (env : Env) (amount : ℕ) (t t' : DiamondToken Token)
      → burn ft env amount t ≡ ok t'
      → (withdraw env.predecessor amount t.token ≡ ok t'.token) × (t'.max_supply ≡ t.max_supply)
  unfolding burn
  burn_parts env amount t t' h = ground arith

  pub bridge_out_parts :
      (env : Env) (to : String) (amount : ℕ) (lz : LayerZeroParams) (t t' : DiamondToken Token)
      → first (bridge_out ft env to amount lz t) ≡ ok t'
      → (withdraw env.predecessor amount t.token ≡ ok t'.token) × (t'.max_supply ≡ t.max_supply)
  unfolding bridge_out
  bridge_out_parts env to amount lz t t' h = ground arith

  pub bridge_in_parts :
      (env : Env) (chain : ℕ) (sender : String) (receiver : AccountId) (amount : ℕ)
      (t t' : DiamondToken Token)
      → first (bridge_in ft env chain sender receiver amount t) ≡ ok t'
      → (registered : Token) × (total_supply registered ≡ total_supply t.token)
        × ((a : AccountId) → balance_of a registered ≡ balance_of a t.token)
        × (check_caps ft amount t ≡ ok tt)
        × (deposit receiver amount registered ≡ ok t'.token)
        × (t'.max_supply ≡ t.max_supply)
  unfolding bridge_in
  bridge_in_parts env chain sender receiver amount t t' h =
      elim (Bool-cases (has_account receiver t.token)) [
        | inl known ↦ (t.token, refl, λ a. refl, ground arith, ground arith, ground arith)
        | inr unknown ↦ elim (Result-cases (register receiver t.token)) [
          | inl (r, e) ↦ (
            r,
            total-register receiver t.token r e,
            λ a. balance-register receiver a t.token r e,
            ground arith,
            ground arith,
            ground arith,
          )
          | inr (x, e) ↦ absurd (ground arith)
        ]
      ]

  pub standard_parts :
      (env : Env) (c : StandardCall) (t t' : DiamondToken Token)
      → call ft env (calls_standard c) t ≡ ok t'
      → (standard env c t.token ≡ ok t'.token) × (t'.max_supply ≡ t.max_supply)
  unfolding call
  standard_parts env c t t' h = ground arith

  abbrev pub IsCapped : DiamondToken Token → Type 0
  IsCapped t = (t.max_supply ≡ max_supply_const) × (total_supply t.token ≤ max_supply_const)

  pub transfer_parts :
      (env : Env) (receiver amount : ℕ) (memo : Option String) (t t' : DiamondToken Token)
      → ft_transfer ft env receiver amount memo t ≡ ok t'
      → (transfer env.predecessor receiver amount memo t.token ≡ ok t'.token)
        × (t'.max_supply ≡ t.max_supply)
  unfolding ft_transfer
  transfer_parts env receiver amount memo t t' h = ground arith

  call-IsCapped :
      (env : Env) (c : Call) (t t' : DiamondToken Token)
      → call ft env c t ≡ ok t'
      → IsCapped t
      → IsCapped t'
  unfolding call set_lz_endpoint add_module_admin add_module transfer_ownership set_chain_config
      update_remote_chain_supply set_supply_oracle
  call-IsCapped env (transfers receiver amount memo) t t' h k =
      let (moved, same) = transfer_parts env receiver amount memo t t' h in
      omega (arith, total-transfer env.predecessor receiver amount memo t.token t'.token moved)
  call-IsCapped env (mints account amount) t t' h k =
      let (owner, caps, made, same) = mint_parts env account amount t t' h in
      omega
        (arith, check_caps_supply amount t caps, total-deposit account amount t.token t'.token made)
  call-IsCapped env (burns amount) t t' h k =
      let (taken, same) = burn_parts env amount t t' h in
      omega (arith, total-withdraw env.predecessor amount t.token t'.token taken)
  call-IsCapped env (bridges_out to amount lz) t t' h k =
      let (taken, same) = bridge_out_parts env to amount lz t t' h in
      omega (arith, total-withdraw env.predecessor amount t.token t'.token taken)
  call-IsCapped env (bridges_in chain sender receiver amount) t t' h k =
      let (r, kept, credit, caps, made, same) =
        bridge_in_parts env chain sender receiver amount t t' h in
      omega (arith, check_caps_supply amount t caps, total-deposit receiver amount r t'.token made)
  call-IsCapped env (sets_lz_endpoint endpoint) t t' h k = ground arith
  call-IsCapped env (adds_module_admin admin) t t' h k = ground arith
  call-IsCapped env (transfers_ownership owner) t t' h k = ground arith
  call-IsCapped env (adds_module module_) t t' h k = ground arith
  call-IsCapped env (sets_chain_config chain config) t t' h k = ground arith
  call-IsCapped env (updates_remote_supply chain supply) t t' h k = ground arith
  call-IsCapped env (sets_supply_oracle chain oracle) t t' h k = ground arith
  call-IsCapped env (calls_standard c) t t' h k =
      let (made, same) = standard_parts env c t t' h in
      omega (arith, total-standard env c t.token t'.token made)

  run-IsCapped :
      (t : DiamondToken Token) (cs : List (Env × Call)) → IsCapped t → IsCapped (run ft t cs)
  unfolding run
  run-IsCapped t [] k = k
  run-IsCapped t ((env, c) ∷ cs) k = elim (Result-cases (call ft env c t)) [
    | inl (t', e) ↦ rw (e, run) (run-IsCapped t' cs (call-IsCapped env c t t' e k))
    | inr (x, e) ↦ rw (e, run) (run-IsCapped t cs k)
  ]

  pub new_parts :
      (env : Env) (owner lz : AccountId) (chain : ℕ) (t : DiamondToken Token)
      → new ft env owner lz chain ≡ ok t
      → (r : Token) × (register owner empty ≡ ok r)
        × (deposit owner initial_supply r ≡ ok t.token)
        × (t.max_supply ≡ max_supply_const)
  unfolding new
  new_parts env owner lz chain t h =
      let (r, e, rest) = >>=-eq-ok (register owner empty) _ h in (r, e, ground arith, ground arith)

  -- From the deployment on, over any history of calls of anyone, those of the token standard and those
  -- that panic included, the maximum stays one billion tokens and the ledger's total never exceeds it.
  pub run-new-IsCapped :
      (env : Env) (owner lz : AccountId) (chain : ℕ) (t : DiamondToken Token)
      (cs : List (Env × Call))
      → new ft env owner lz chain ≡ ok t
      → IsCapped (run ft t cs)
  run-new-IsCapped env owner lz chain t cs h =
      let (r, e, made, same) = new_parts env owner lz chain t h in
      run-IsCapped t cs (
        omega (
          arith,
          total-register owner empty r e,
          total-empty,
          total-deposit owner initial_supply r t.token made,
        ))
