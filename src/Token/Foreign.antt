-- ===== src/Token/Foreign.antt =====
-- The calls of anyone but the tracker's owner, which the tracker does not follow.
use diamond_bot_v.Base.{
  ℕ, ◌+◌, ◌≡◌, ◌≢◌, inl, inr, ap, true, String, arith, Bool-cases, Option-cases, lookup,
}
use diamond_bot_v.Near.{AccountId, Env, Result, ok, Result-cases, add128, checked_sub}
use diamond_bot_v.Ft.{FungibleToken}
use diamond_bot_v.Bridge.{LayerZeroParams}
use diamond_bot_v.Supply
use diamond_bot_v.Supply.{
  ChainSupply, SupplyTracker, chain_supply, update_chain_supply, get_chain_supply,
  get_total_circulating_supply,
}
use diamond_bot_v.Supply.Total.{stranger_updates_nothing}
use diamond_bot_v.Token.{DiamondToken, ft_transfer, burn, bridge_out, bridge_in, update_near}
use diamond_bot_v.Token.Settings.{
  set_lz_endpoint, add_module_admin, add_module, transfer_ownership, set_chain_config,
  update_remote_chain_supply, set_supply_oracle, is_oracle,
}
use diamond_bot_v.Token.Calls.{
  Call, transfers, mints, burns, bridges_out, bridges_in, sets_lz_endpoint, adds_module_admin,
  transfers_ownership, adds_module, sets_chain_config, updates_remote_supply, sets_supply_oracle,
  calls_standard, call, first,
}
use diamond_bot_v.Token.Tracking.{mint_tracks, burn_tracks}
use diamond_bot_v.Token.Cap.{burn_parts}

module _ {T : Type 0} where
  update_near_foreign :
      (env : Env) (change : ℕ → Result ℕ) (t : DiamondToken T) (s : SupplyTracker)
      → env.predecessor ≢ t.supply_tracker.owner_id
      → update_near env change t ≡ ok s
      → s ≡ t.supply_tracker
  unfolding update_near
  update_near_foreign env change t s foreign h =
      elim (Option-cases (get_chain_supply t.near_chain_id t.supply_tracker)) [
        | inl e ↦ ground arith
        | inr (c, e) ↦ elim (Result-cases (change c.supply)) [
          | inl (n, k) ↦ ground (
            arith,
            stranger_updates_nothing env t.near_chain_id n c.chain_name t.supply_tracker foreign,
          )
          | inr (x, k) ↦ absurd (ground arith)
        ]
      ]

module _ (ft : FungibleToken) where
  open ft use {
    Token, balance_of, balance-withdraw, balance-deposit, empty, total-empty, total-register,
    deposit, withdraw, total_supply, total-deposit, total-withdraw, has_account, register,
  }

  bridge_out_tracks :
      (env : Env) (to : String) (amount : ℕ) (lz : LayerZeroParams) (t t' : DiamondToken Token)
      → first (bridge_out ft env to amount lz t) ≡ ok t'
      → update_near env (λ n. checked_sub n amount) t ≡ ok t'.supply_tracker
  unfolding bridge_out
  bridge_out_tracks env to amount lz t t' h = ground arith

  bridge_in_tracks :
      (env : Env) (chain : ℕ) (sender : String) (receiver : AccountId) (amount : ℕ)
      (t t' : DiamondToken Token)
      → first (bridge_in ft env chain sender receiver amount t) ≡ ok t'
      → update_near env (λ n. add128 n amount) t ≡ ok t'.supply_tracker
  unfolding bridge_in
  bridge_in_tracks env chain sender receiver amount t t' h =
      elim (Bool-cases (has_account receiver t.token)) [
        | inl known ↦ ground arith
        | inr unknown ↦ elim (Result-cases (register receiver t.token)) [
          | inl (r, e) ↦ ground arith
          | inr (x, e) ↦ absurd (ground arith)
        ]
      ]

  -- No call of anyone but the tracker's owner changes the tracker, whatever it does to the ledger.
  pub foreign_call_untracked :
      (env : Env) (c : Call) (t t' : DiamondToken Token)
      → env.predecessor ≢ t.supply_tracker.owner_id
      → call ft env c t ≡ ok t'
      → t'.supply_tracker ≡ t.supply_tracker
  unfolding call ft_transfer set_lz_endpoint add_module_admin add_module transfer_ownership
      set_chain_config update_remote_chain_supply set_supply_oracle Supply.transfer_ownership
  foreign_call_untracked env (transfers receiver amount memo) t t' f h = ground arith
  foreign_call_untracked env (mints account amount) t t' f h =
      update_near_foreign env _ t t'.supply_tracker f (mint_tracks ft env account amount t t' h).0
  foreign_call_untracked env (burns amount) t t' f h =
      update_near_foreign env _ t t'.supply_tracker f (burn_tracks ft env amount t t' h).0
  foreign_call_untracked env (bridges_out to amount lz) t t' f h =
      update_near_foreign env _ t t'.supply_tracker f (bridge_out_tracks env to amount lz t t' h)
  foreign_call_untracked env (bridges_in chain sender receiver amount) t t' f h =
      update_near_foreign env _ t t'.supply_tracker f
        (bridge_in_tracks env chain sender receiver amount t t' h)
  foreign_call_untracked env (sets_lz_endpoint endpoint) t t' f h = ground arith
  foreign_call_untracked env (adds_module_admin admin) t t' f h = ground arith
  foreign_call_untracked env (transfers_ownership owner) t t' f h = ground arith
  foreign_call_untracked env (adds_module module_) t t' f h = ground arith
  foreign_call_untracked env (sets_chain_config chain config) t t' f h =
      elim (Option-cases (get_chain_supply chain t.supply_tracker)) [
        | inl e ↦
            ground
              (arith, stranger_updates_nothing env chain 0 config.chain_name t.supply_tracker f)
        | inr (s, e) ↦ ground arith
      ]
  foreign_call_untracked env (updates_remote_supply chain supply) t t' f h =
      elim (Option-cases (lookup chain t.chain_configs)) [
        | inl e ↦ ground arith
        | inr (c, e) ↦
            ground
              (arith, stranger_updates_nothing env chain supply c.chain_name t.supply_tracker f)
      ]
  foreign_call_untracked env (sets_supply_oracle chain oracle) t t' f h = ground arith
  foreign_call_untracked env (calls_standard c) t t' f h = ground arith

  -- A burn of a holder who is not the tracker's owner lowers the ledger's total by the amount and
  -- leaves the circulating supply where it was.
  pub holder_burn_untracked :
      (env : Env) (amount : ℕ) (t t' : DiamondToken Token)
      → env.predecessor ≢ t.supply_tracker.owner_id
      → burn ft env amount t ≡ ok t'
      → (total_supply t'.token + amount ≡ total_supply t.token)
        × (get_total_circulating_supply t'.supply_tracker
            ≡ get_total_circulating_supply t.supply_tracker)
  holder_burn_untracked env amount t t' f h = (
    total-withdraw env.predecessor amount t.token t'.token (burn_parts ft env amount t t' h).0,
    ap get_total_circulating_supply
        (update_near_foreign env _ t t'.supply_tracker f (burn_tracks ft env amount t t' h).0),
  )

  -- The oracle of a configured chain, when it is not the tracker's owner, is told that its update
  -- succeeded, and nothing is written.
  pub oracle_update_lost :
      (env : Env) (chain supply : ℕ) (t : DiamondToken Token)
      → is_oracle env.predecessor (lookup chain t.chain_configs) ≡ true
      → env.predecessor ≢ t.supply_tracker.owner_id
      → update_remote_chain_supply env chain supply t ≡ (t, true)
  unfolding update_remote_chain_supply
  oracle_update_lost env chain supply t oracle f =
      elim (Option-cases (lookup chain t.chain_configs)) [
        | inl e ↦ absurd (ground arith)
        | inr (c, e) ↦
            ground
              (arith, stranger_updates_nothing env chain supply c.chain_name t.supply_tracker f)
      ]
