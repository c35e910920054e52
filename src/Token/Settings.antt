-- ===== src/Token/Settings.antt =====
-- The methods of the token contract that leave the ledger alone: its views, its settings, and what it
-- hands on to the supply tracker and the module manager.
use diamond_bot_v.Base.{
  ℕ, Bool, true, false, ◌||◌, String, Option, none, some, List, map, ◌==◌, if◌then◌else◌, lookup,
  insert,
}
use diamond_bot_v.Near.{AccountId, Env, Result, ok, ◌>>=◌, ◌>>◌, checked_sub, or_panic, unwrap_none}
use diamond_bot_v.Ft.{FungibleTokenMetadata}
use diamond_bot_v.Bridge.{ChainConfig}
use diamond_bot_v.Supply
use diamond_bot_v.Supply.{
  ChainSupply, SupplyTracker, update_chain_supply, get_chain_supply, get_total_circulating_supply,
  get_all_chain_supplies,
}
use diamond_bot_v.Modules
use diamond_bot_v.Modules.{Module, ModuleManager, Name, FunctionCall}
use diamond_bot_v.Token.{DiamondToken, assert_owner}

abbrev supply_or_zero : Option ChainSupply → ℕ
supply_or_zero none = 0
supply_or_zero (some s) = s.supply

-- A chain that is new to the tracker starts with no supply.
abbrev pub track_chain : Env → ℕ → String → SupplyTracker → SupplyTracker
track_chain env chain_id name tracker = elim (get_chain_supply chain_id tracker) [
  | none ↦ (update_chain_supply env chain_id name 0 tracker).0
  | some s ↦ tracker
]

-- Whether the caller is the oracle of a chain's configuration.
abbrev pub is_oracle : AccountId → Option ChainConfig → Bool
is_oracle caller none = false
is_oracle caller (some c) = elim c.supply_oracle [ none ↦ false | some o ↦ o == caller ]

module _ {T : Type 0} where
  unfoldable pub get_max_supply : DiamondToken T → ℕ
  get_max_supply t = t.max_supply

  unfoldable pub get_owner : DiamondToken T → AccountId
  get_owner t = t.owner_id

  unfoldable pub ft_metadata : DiamondToken T → Result FungibleTokenMetadata
  ft_metadata t = or_panic t.metadata unwrap_none

  unfoldable pub set_lz_endpoint : Env → AccountId → DiamondToken T → Result (DiamondToken T)
  set_lz_endpoint env lz_endpoint t = do
    assert_owner env t
    ok (record t { lz_endpoint = lz_endpoint; last_update = env.now })

  -- `get_global_circulating_supply`, and the bridge's `get_total_circulating_supply`.
  unfoldable pub get_global_circulating_supply : DiamondToken T → Result ℕ
  get_global_circulating_supply t = get_total_circulating_supply t.supply_tracker

  unfoldable pub get_near_circulating_supply : DiamondToken T → ℕ
  get_near_circulating_supply t = supply_or_zero (get_chain_supply t.near_chain_id t.supply_tracker)

  unfoldable pub add_module_admin :
      Env → AccountId → DiamondToken T → Result (DiamondToken T × Bool)
  add_module_admin env admin_id t = do
    assert_owner env t
    result ← Modules.add_admin env admin_id t.module_manager
    ok (record t { module_manager = result.0; last_update = env.now }, result.1)

  unfoldable pub add_module : Env → Module → DiamondToken T → Result (DiamondToken T × Bool)
  add_module env module_ t = do
    assert_owner env t
    result ← Modules.add_module env module_ t.module_manager
    ok (record t { module_manager = result.0; last_update = env.now }, result.1)

  unfoldable pub get_active_modules : DiamondToken T → Result (List Module)
  get_active_modules t = Modules.get_active_modules t.module_manager

  unfoldable pub transfer_ownership : Env → AccountId → DiamondToken T → Result (DiamondToken T)
  transfer_ownership env new_owner_id t = do
    assert_owner env t
    tracker ← Supply.transfer_ownership env new_owner_id t.supply_tracker
    manager ← Modules.transfer_ownership env new_owner_id t.module_manager
    ok (record t {
      owner_id = new_owner_id;
      supply_tracker = tracker;
      module_manager = manager;
      last_update = env.now;
    })

  unfoldable pub call_module_function :
      Env → Name → Name → String → DiamondToken T → Result FunctionCall
  call_module_function env module_name function_name args t = do
    assert_owner env t
    unused ← checked_sub env.prepaid_gas env.used_gas
    gas ← checked_sub unused 30_000_000_000_000
    Modules.call_module_function env module_name function_name args env.attached_deposit gas
        t.module_manager

  unfoldable pub set_chain_config : Env → ℕ → ChainConfig → DiamondToken T → Result (DiamondToken T)
  set_chain_config env chain_id config t = do
    assert_owner env t
    ok (record t {
      chain_configs = insert chain_id config t.chain_configs;
      supply_tracker = track_chain env chain_id config.chain_name t.supply_tracker;
    })

  unfoldable pub get_chain_config : ℕ → DiamondToken T → Option ChainConfig
  get_chain_config chain_id t = lookup chain_id t.chain_configs

  unfoldable pub get_chain_supplies : DiamondToken T → List (ℕ × String × ℕ)
  get_chain_supplies t =
      map (λ s. (s.chain_id, s.chain_name, s.supply)) (get_all_chain_supplies t.supply_tracker)

  abbrev pub write_remote :
      Env → ℕ → ℕ → DiamondToken T → Option ChainConfig → DiamondToken T × Bool
  write_remote env chain_id supply t none = (t, false)
  write_remote env chain_id supply t (some c) = (
    record t {
      supply_tracker = (update_chain_supply env chain_id c.chain_name supply t.supply_tracker).0;
    },
    true,
  )

  unfoldable pub update_remote_chain_supply : Env → ℕ → ℕ → DiamondToken T → DiamondToken T × Bool
  update_remote_chain_supply env chain_id supply t =
      let config = lookup chain_id t.chain_configs in
      if (t.owner_id == env.predecessor) || is_oracle env.predecessor config
      then write_remote env chain_id supply t config
      else (t, false)

  abbrev pub with_oracle :
      ℕ → AccountId → DiamondToken T → Option ChainConfig → DiamondToken T × Bool
  with_oracle chain_id oracle t none = (t, false)
  with_oracle chain_id oracle t (some c) = (
    record t {
      chain_configs = insert chain_id (record c { supply_oracle = some oracle }) t.chain_configs;
    },
    true,
  )

  unfoldable pub set_supply_oracle :
      Env → ℕ → AccountId → DiamondToken T → Result (DiamondToken T × Bool)
  set_supply_oracle env chain_id oracle t = do
    assert_owner env t
    ok (with_oracle chain_id oracle t (lookup chain_id t.chain_configs))
