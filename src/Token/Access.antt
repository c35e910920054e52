-- ===== src/Token/Access.antt =====
-- Who owns what: the token, its tracker and its module manager have one owner, and nobody else changes
-- the settings.
use diamond_bot_v.Base.{
  ℕ, ◌≡◌, ◌≢◌, inl, inr, true, List, [], ◌∷◌, arith, Option-cases, contains-push, lookup,
}
use diamond_bot_v.Near.{AccountId, Env, Result, ok, Result-cases, add128, checked_sub}
use diamond_bot_v.Ft.{FungibleToken}
use diamond_bot_v.Supply
use diamond_bot_v.Supply.{SupplyTracker, update_chain_supply, get_chain_supply}
use diamond_bot_v.Modules
use diamond_bot_v.Modules.{ModuleManager, is_admin, push_new}
use diamond_bot_v.Modules.Admins.{contains-push_new}
use diamond_bot_v.Token.{
  DiamondToken, new, ft_transfer, mint, burn, bridge_out, bridge_in, update_near,
}
use diamond_bot_v.Token.Settings.{
  set_lz_endpoint, add_module_admin, add_module, transfer_ownership, set_chain_config,
  update_remote_chain_supply, set_supply_oracle,
}
use diamond_bot_v.Token.Calls.{
  Call, transfers, mints, burns, bridges_out, bridges_in, sets_lz_endpoint, adds_module_admin,
  transfers_ownership, adds_module, sets_chain_config, updates_remote_supply, sets_supply_oracle,
  calls_standard, call, run,
}

module _ {T : Type 0} where
  -- The three owners are one account, which is an admin of the module manager.
  abbrev pub IsOwned : DiamondToken T → Type 0
  IsOwned t =
      (t.supply_tracker.owner_id ≡ t.owner_id)
      × (t.module_manager.owner_id ≡ t.owner_id)
      × (is_admin t.owner_id t.module_manager ≡ true)

  update_near_owner :
      (env : Env) (change : ℕ → Result ℕ) (t : DiamondToken T) (s : SupplyTracker)
      → update_near env change t ≡ ok s
      → s.owner_id ≡ t.supply_tracker.owner_id
  unfolding update_near update_chain_supply
  update_near_owner env change t s h =
      elim (Option-cases (get_chain_supply t.near_chain_id t.supply_tracker)) [
        | inl e ↦ ground arith
        | inr (c, e) ↦ ground arith
      ]

  -- Everything but the ledger, the tracker and the time of the last change.
  abbrev pub SameSettings : DiamondToken T → DiamondToken T → Type 0
  SameSettings t t' =
      (t'.owner_id ≡ t.owner_id)
      × (t'.metadata ≡ t.metadata)
      × (t'.max_supply ≡ t.max_supply)
      × (t'.lz_endpoint ≡ t.lz_endpoint)
      × (t'.near_chain_id ≡ t.near_chain_id)
      × (t'.chain_configs ≡ t.chain_configs)
      × (t'.module_manager ≡ t.module_manager)

  remote_owner :
      (env : Env) (chain supply : ℕ) (t : DiamondToken T)
      → let t' = (update_remote_chain_supply env chain supply t).0 in
        SameSettings t t' × (t'.supply_tracker.owner_id ≡ t.supply_tracker.owner_id)
  unfolding update_remote_chain_supply update_chain_supply
  remote_owner env chain supply t = elim (Option-cases (lookup chain t.chain_configs)) [
    | inl e ↦ ground arith
    | inr (c, e) ↦ ground arith
  ]

module _ (ft : FungibleToken) where
  open ft use {Token}

  -- A call of anyone but the owner that goes through changes no setting: not the owner, the metadata,
  -- the maximum, the endpoint, the chains or the modules.
  pub stranger_keeps_settings :
      (env : Env) (c : Call) (t t' : DiamondToken Token)
      → env.predecessor ≢ t.owner_id
      → call ft env c t ≡ ok t'
      → SameSettings t t'
  unfolding call ft_transfer mint burn bridge_in bridge_out set_lz_endpoint add_module_admin
      add_module transfer_ownership set_chain_config set_supply_oracle
  stranger_keeps_settings env (transfers receiver amount memo) t t' o h = ground arith
  stranger_keeps_settings env (mints account amount) t t' o h = ground arith
  stranger_keeps_settings env (burns amount) t t' o h = ground arith
  stranger_keeps_settings env (bridges_out to amount lz) t t' o h = ground arith
  stranger_keeps_settings env (bridges_in chain sender receiver amount) t t' o h = ground arith
  stranger_keeps_settings env (sets_lz_endpoint endpoint) t t' o h = ground arith
  stranger_keeps_settings env (adds_module_admin admin) t t' o h = ground arith
  stranger_keeps_settings env (transfers_ownership owner) t t' o h = ground arith
  stranger_keeps_settings env (adds_module module_) t t' o h = ground arith
  stranger_keeps_settings env (sets_chain_config chain config) t t' o h = ground arith
  stranger_keeps_settings env (updates_remote_supply chain supply) t t' o h =
      ground (arith, remote_owner env chain supply t)
  stranger_keeps_settings env (sets_supply_oracle chain oracle) t t' o h = ground arith
  stranger_keeps_settings env (calls_standard c) t t' o h = ground arith

  call-IsOwned :
      (env : Env) (c : Call) (t t' : DiamondToken Token)
      → call ft env c t ≡ ok t'
      → IsOwned t
      → IsOwned t'
  unfolding call ft_transfer mint burn bridge_in bridge_out set_lz_endpoint add_module_admin
      add_module transfer_ownership set_chain_config set_supply_oracle update_chain_supply is_admin
      Supply.transfer_ownership Modules.transfer_ownership Modules.add_admin Modules.add_module
  call-IsOwned env (transfers receiver amount memo) t t' h o = ground arith
  call-IsOwned env (mints account amount) t t' h o =
      ground (arith, update_near_owner env (λ n. add128 n amount) t t'.supply_tracker)
  call-IsOwned env (burns amount) t t' h o =
      ground (arith, update_near_owner env (λ n. checked_sub n amount) t t'.supply_tracker)
  call-IsOwned env (bridges_out to amount lz) t t' h o =
      ground (arith, update_near_owner env (λ n. checked_sub n amount) t t'.supply_tracker)
  call-IsOwned env (bridges_in chain sender receiver amount) t t' h o =
      ground (arith, update_near_owner env (λ n. add128 n amount) t t'.supply_tracker)
  call-IsOwned env (sets_lz_endpoint endpoint) t t' h o = ground arith
  call-IsOwned env (adds_module_admin admin) t t' h o =
      ground (arith, contains-push t.module_manager.admins admin t.owner_id)
  call-IsOwned env (transfers_ownership owner) t t' h o =
      ground (arith, contains-push_new t.module_manager.admins owner owner)
  call-IsOwned env (adds_module module_) t t' h o = ground arith
  call-IsOwned env (sets_chain_config chain config) t t' h o =
      elim (Option-cases (get_chain_supply chain t.supply_tracker)) [
        | inl e ↦ ground arith
        | inr (s, e) ↦ ground arith
      ]
  call-IsOwned env (updates_remote_supply chain supply) t t' h o =
      ground (arith, remote_owner env chain supply t)
  call-IsOwned env (sets_supply_oracle chain oracle) t t' h o =
      elim (Option-cases (lookup chain t.chain_configs)) [
        | inl e ↦ ground arith
        | inr (c, e) ↦ ground arith
      ]
  call-IsOwned env (calls_standard c) t t' h o = ground arith

  run-IsOwned :
      (t : DiamondToken Token) (cs : List (Env × Call)) → IsOwned t → IsOwned (run ft t cs)
  unfolding run
  run-IsOwned t [] o = o
  run-IsOwned t ((env, c) ∷ cs) o = elim (Result-cases (call ft env c t)) [
    | inl (t', e) ↦ rw (e, run) (run-IsOwned t' cs (call-IsOwned env c t t' e o))
    | inr (x, e) ↦ rw (e, run) (run-IsOwned t cs o)
  ]

  new-IsOwned :
      (env : Env) (owner lz : AccountId) (chain : ℕ) (t : DiamondToken Token)
      → new ft env owner lz chain ≡ ok t
      → IsOwned t
  unfolding new Supply.new Modules.new update_chain_supply is_admin
  new-IsOwned env owner lz chain t h = ground (arith, contains-push_new [] owner owner)

  -- From the deployment on, over any history of calls of anyone, the token, its supply tracker and its
  -- module manager have the same owner, who is an admin of the manager.
  pub run-new-IsOwned :
      (env : Env) (owner lz : AccountId) (chain : ℕ) (t : DiamondToken Token)
      (cs : List (Env × Call))
      → new ft env owner lz chain ≡ ok t
      → IsOwned (run ft t cs)
  run-new-IsOwned env owner lz chain t cs h = run-IsOwned t cs (new-IsOwned env owner lz chain t h)
