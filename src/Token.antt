-- ===== src/Token.antt =====
-- The token contract, `DiamondToken` in blockchain/src/diamond_token/src/lib.rs, over any ledger `ft`.
pub mod Settings
pub mod Fees
pub mod Calls
pub mod Cap
pub mod Tracking
pub mod Flow
pub mod Foreign
pub mod Access
mod Tests
use diamond_bot_v.Base.{
  ℕ, ◌+◌, ◌-◌, ◌*◌, ◌/◌, Bool, true, false, not, ◌||◌, String, Option, none, some, List, [], ◌∷◌,
  map, ltb, leb, ◌==◌, if◌then◌else◌, Dict, lookup, insert, is_some,
}
use diamond_bot_v.Near.{
  AccountId, Env, only_owner, only_endpoint, exceeds_max_supply, exceeds_global_max_supply,
  chain_not_supported, bridge_disabled, insufficient_fee, Result, ok, panic, ◌>>=◌, ◌>>◌, require,
  or_panic, add128, mul128, checked_sub,
}
use diamond_bot_v.Ft.{FungibleToken, FungibleTokenMetadata}
use diamond_bot_v.Bridge.{LayerZeroParams, ChainConfig, LzSend, lz_send}
use diamond_bot_v.Supply
use diamond_bot_v.Supply.{
  ChainSupply, SupplyTracker, update_chain_supply, get_chain_supply, get_total_circulating_supply,
}
use diamond_bot_v.Modules
use diamond_bot_v.Modules.{Module, ModuleManager, Name, FunctionCall}

pub record DiamondToken (T : Type 0) : Type 0 where
  pub token : T
  pub metadata : Option FungibleTokenMetadata
  pub owner_id : AccountId
  pub max_supply : ℕ
  pub chain_configs : Dict ChainConfig
  pub lz_endpoint : AccountId
  pub supply_tracker : SupplyTracker
  pub near_chain_id : ℕ
  pub module_manager : ModuleManager
  pub last_update : ℕ

abbrev pub max_supply_const : ℕ
max_supply_const = 1_000_000_000_000_000_000_000_000_000

abbrev pub initial_supply : ℕ
initial_supply = 250_000_000_000_000_000_000_000_000

abbrev pub assert_owner : {T : Type 0} → Env → DiamondToken T → Result (Unit {0})
assert_owner env t = require (env.predecessor == t.owner_id) only_owner

-- `if let Some(s) = get_chain_supply(near) { update_chain_supply(near, s.chain_name, …) }`
write_near :
    {T : Type 0} → Env → (ℕ → Result ℕ) → DiamondToken T → Option ChainSupply → Result SupplyTracker
write_near env change t none = ok t.supply_tracker
write_near env change t (some s) = do
  new_supply ← change s.supply
  ok (update_chain_supply env t.near_chain_id s.chain_name new_supply t.supply_tracker).0

pub update_near : {T : Type 0} → Env → (ℕ → Result ℕ) → DiamondToken T → Result SupplyTracker
unfolding write_near
update_near env change t =
    write_near env change t (get_chain_supply t.near_chain_id t.supply_tracker)

abbrev pub clamp_fee : ChainConfig → ℕ → ℕ
clamp_fee c fee =
    if ltb fee c.min_fee then c.min_fee else if ltb c.max_fee fee then c.max_fee else fee

fee_for : Option ChainConfig → ℕ → Result ℕ
fee_for none amount = ok 0
fee_for (some c) amount = do
  scaled ← mul128 amount c.fee_basis_points
  ok (clamp_fee c (scaled / 10000))

pub estimate_bridge_fee : {T : Type 0} → ℕ → ℕ → DiamondToken T → Result ℕ
unfolding fee_for
estimate_bridge_fee dest_chain_id amount t = fee_for (lookup dest_chain_id t.chain_configs) amount

-- The metadata that the constructor stores.
abbrev pub dmd_metadata : String → FungibleTokenMetadata
dmd_metadata spec = record {
  spec = spec;
  name = "Diamond Token";
  symbol = "DMD";
  icon = none;
  reference = none;
  reference_hash = none;
  decimals = 18;
}

module _ (ft : FungibleToken) where
  open ft use {Token, empty, register, deposit, withdraw, transfer, total_supply, has_account}

  pub new : Env → AccountId → AccountId → ℕ → Result (DiamondToken Token)
  new env owner_id lz_endpoint near_chain_id = do
    registered ← register owner_id empty
    funded ← deposit owner_id initial_supply registered
    let tracker = Supply.new near_chain_id max_supply_const owner_id
    ok (record {
      token = funded;
      metadata = some (dmd_metadata ft.ft_metadata_spec);
      owner_id = owner_id;
      max_supply = max_supply_const;
      chain_configs = [];
      lz_endpoint = lz_endpoint;
      supply_tracker =
          (update_chain_supply env near_chain_id "NEAR Protocol" initial_supply tracker).0;
      near_chain_id = near_chain_id;
      module_manager = Modules.new owner_id none;
      last_update = env.now;
    })

  pub ft_transfer :
      Env → AccountId → ℕ → Option String → DiamondToken Token → Result (DiamondToken Token)
  ft_transfer env receiver_id amount memo t = do
    token ← transfer env.predecessor receiver_id amount memo t.token
    ok (record t { token = token; last_update = env.now })

  -- The two caps that `mint` and `bridge_in` check.
  pub check_caps : ℕ → DiamondToken Token → Result (Unit {0})
  check_caps amount t = do
    supply ← add128 (total_supply t.token) amount
    require (leb supply t.max_supply) exceeds_max_supply
    total_circulating ← get_total_circulating_supply t.supply_tracker
    total ← add128 total_circulating amount
    require (leb total t.max_supply) exceeds_global_max_supply

  pub mint : Env → AccountId → ℕ → DiamondToken Token → Result (DiamondToken Token)
  mint env account_id amount t = do
    assert_owner env t
    check_caps amount t
    token ← deposit account_id amount t.token
    tracker ← update_near env (λ n. add128 n amount) t
    ok (record t { token = token; supply_tracker = tracker; last_update = env.now })

  pub burn : Env → ℕ → DiamondToken Token → Result (DiamondToken Token)
  burn env amount t = do
    token ← withdraw env.predecessor amount t.token
    tracker ← update_near env (λ n. checked_sub n amount) t
    ok (record t { token = token; supply_tracker = tracker; last_update = env.now })

  pub bridge_out :
      Env → String → ℕ → LayerZeroParams → DiamondToken Token → Result (DiamondToken Token × LzSend)
  bridge_out env to amount lz_params t = do
    chain_config ← or_panic (lookup lz_params.dest_chain_id t.chain_configs) chain_not_supported
    require chain_config.enabled bridge_disabled
    fee_amount ← estimate_bridge_fee lz_params.dest_chain_id amount t
    require (leb fee_amount lz_params.fees) insufficient_fee
    token ← withdraw env.predecessor amount t.token
    tracker ← update_near env (λ n. checked_sub n amount) t
    ok (
      record t { token = token; supply_tracker = tracker },
      lz_send t.lz_endpoint lz_params.dest_chain_id chain_config.remote_bridge_address
          (record { from = env.predecessor; to = to; amount = amount }) env.predecessor
          lz_params.adapter_params lz_params.fees,
    )

  pub bridge_in :
      Env → ℕ → String → AccountId → ℕ → DiamondToken Token → Result (DiamondToken Token × Bool)
  bridge_in env from_chain_id sender receiver_id amount t = do
    require (env.predecessor == t.lz_endpoint) only_endpoint
    chain_config ← or_panic (lookup from_chain_id t.chain_configs) chain_not_supported
    require chain_config.enabled bridge_disabled
    check_caps amount t
    registered ←
        (if has_account receiver_id t.token then ok t.token else register receiver_id t.token)
    token ← deposit receiver_id amount registered
    tracker ← update_near env (λ n. add128 n amount) t
    ok (record t { token = token; supply_tracker = tracker }, true)
