-- ===== src/Chains.antt =====
-- The registry of chains, `ChainRegistry` in snipebot/src/chain_adapters/chain_registry.rs. Adapters,
-- watchers and retry policies are values of any type, and so is what a chain's configuration has beside
-- its id and its name; `fallback` names a chain that has no configuration, and `get_type` and
-- `placeholder` are those of the adapters. Whether a node or a pool answers is an argument.
pub mod Records
mod Tests
use diamond_bot_v.Base.{
  ℕ, ◌+◌, ◌%◌, ◌^◌, Bool, true, false, not, Option, none, some, List, [], map, if◌then◌else◌, Dict,
  lookup, insert, erase, is_some,
}

pub data AdapterStatus : Type 0 where
  active degraded inactive : AdapterStatus

pub record ChainAdapterInfo : Type 0 where
  pub chain_id : ℕ
  pub name : ℕ
  pub adapter_type : ℕ
  pub status : AdapterStatus
  pub uptime : ℕ
  pub successful_requests : ℕ
  pub failed_requests : ℕ
  pub available_endpoints : ℕ
  pub active_requests : ℕ
  pub average_response_time : ℕ

pub record ChainConfig (R : Type 0) : Type 0 where
  pub chain_id : ℕ
  pub name : ℕ
  pub rest : R

pub record ChainRegistry (A W P R : Type 0) : Type 0 where
  pub adapters : Dict A
  pub adapter_info : Dict ChainAdapterInfo
  pub chain_configs : Dict (ChainConfig R)
  pub watchers : Dict W
  pub default_retry_policy : P

abbrev pub chain_name : {R : Type 0} → ℕ → Option (ChainConfig R) → ℕ
chain_name fallback none = fallback
chain_name fallback (some config) = config.name

abbrev pub new_info : ℕ → ℕ → ℕ → ChainAdapterInfo
new_info chain_id name adapter_type = record {
  chain_id = chain_id;
  name = name;
  adapter_type = adapter_type;
  status = active;
  uptime = 0;
  successful_requests = 0;
  failed_requests = 0;
  available_endpoints = 0;
  active_requests = 0;
  average_response_time = 0;
}

-- `get_mut`, and the change of what is there.
abbrev pub put_changed : {V : Type 0} → ℕ → (V → V) → Option V → Dict V → Dict V
put_changed k f none d = d
put_changed k f (some v) d = insert k (f v) d

abbrev pub change_at : {V : Type 0} → ℕ → (V → V) → Dict V → Dict V
change_at k f d = put_changed k f (lookup k d) d

abbrev pub checked : Bool → ChainAdapterInfo → ChainAdapterInfo
checked true info = record info {
  status = active;
  successful_requests = (info.successful_requests + 1) % 2 ^ 64;
}
checked false info = record info {
  status = degraded;
  failed_requests = (info.failed_requests + 1) % 2 ^ 64;
}

module _ {A W P R : Type 0} where
  abbrev pub new : P → ChainRegistry A W P R
  new policy = record {
    adapters = [];
    adapter_info = [];
    chain_configs = [];
    watchers = [];
    default_retry_policy = policy;
  }

  abbrev pub register_watcher : ℕ → W → ChainRegistry A W P R → Option (ChainRegistry A W P R)
  register_watcher chain_id watcher r =
      if is_some (lookup chain_id r.watchers)
      then none
      else some (record r { watchers = insert chain_id watcher r.watchers })

  abbrev pub add_chain_config : ChainConfig R → ChainRegistry A W P R → ChainRegistry A W P R
  add_chain_config config r = record r {
    adapter_info = change_at config.chain_id (λ i. record i { name = config.name }) r.adapter_info;
    chain_configs = insert config.chain_id config r.chain_configs;
  }

  abbrev pub get_adapter : ℕ → ChainRegistry A W P R → Option A
  get_adapter chain_id r = lookup chain_id r.adapters

  abbrev pub get_watcher : ℕ → ChainRegistry A W P R → Option W
  get_watcher chain_id r = lookup chain_id r.watchers

  abbrev pub get_chain_config : ℕ → ChainRegistry A W P R → Option (ChainConfig R)
  get_chain_config chain_id r = lookup chain_id r.chain_configs

  abbrev pub get_all_adapter_info : ChainRegistry A W P R → List ChainAdapterInfo
  get_all_adapter_info r = map (λ p. p.1) r.adapter_info

  abbrev pub get_adapter_info : ℕ → ChainRegistry A W P R → Option ChainAdapterInfo
  get_adapter_info chain_id r = lookup chain_id r.adapter_info

  abbrev pub update_adapter_info :
      ℕ → ChainAdapterInfo → ChainRegistry A W P R → Option (ChainRegistry A W P R)
  update_adapter_info chain_id info r =
      if not (is_some (lookup chain_id r.adapter_info))
      then none
      else some (record r { adapter_info = insert chain_id info r.adapter_info })

  abbrev pub get_supported_chains : ChainRegistry A W P R → List ℕ
  get_supported_chains r = map (λ p. p.0) r.adapters

  abbrev pub unregister_adapter : ℕ → ChainRegistry A W P R → Option (ChainRegistry A W P R)
  unregister_adapter chain_id r =
      if not (is_some (lookup chain_id r.adapters))
      then none
      else some (record r {
        adapters = erase chain_id r.adapters;
        adapter_info = erase chain_id r.adapter_info;
      })

  abbrev pub unregister_watcher : ℕ → ChainRegistry A W P R → Option (ChainRegistry A W P R)
  unregister_watcher chain_id r =
      if not (is_some (lookup chain_id r.watchers))
      then none
      else some (record r { watchers = erase chain_id r.watchers })

  abbrev pub set_default_retry_policy : P → ChainRegistry A W P R → ChainRegistry A W P R
  set_default_retry_policy policy r = record r { default_retry_policy = policy }

  -- Whether the check passes, if there is an adapter, and the registry after it.
  abbrev pub check_adapter_connection :
      ℕ → Bool → ChainRegistry A W P R → Option Bool × ChainRegistry A W P R
  check_adapter_connection chain_id answers r =
      if is_some (get_adapter chain_id r)
      then (
        some answers,
        record r { adapter_info = change_at chain_id (checked answers) r.adapter_info },
      )
      else (none, r)

module _ {A W P R : Type 0} (fallback : ℕ → ℕ) (get_type : A → ℕ)
    (placeholder : ChainConfig R → A) where
  abbrev pub register_adapter : ℕ → A → ChainRegistry A W P R → Option (ChainRegistry A W P R)
  register_adapter chain_id adapter r =
      if is_some (lookup chain_id r.adapters)
      then none
      else some (record r {
        adapters = insert chain_id adapter r.adapters;
        adapter_info =
            insert chain_id
              (new_info chain_id (chain_name (fallback chain_id) (lookup chain_id r.chain_configs))
                (get_type adapter))
              r.adapter_info;
      })

  -- With whether `get_or_create_pool` makes a pool.
  abbrev pub init_from :
      Option (ChainConfig R) → ℕ → Bool → ChainRegistry A W P R → Option (ChainRegistry A W P R)
  init_from none chain_id pooled r = none
  init_from (some config) chain_id false r = none
  init_from (some config) chain_id true r = register_adapter chain_id (placeholder config) r

  abbrev pub init_adapter_from_config :
      ℕ → Bool → ChainRegistry A W P R → Option (ChainRegistry A W P R)
  init_adapter_from_config chain_id pooled r =
      init_from (lookup chain_id r.chain_configs) chain_id pooled r
