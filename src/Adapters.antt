-- ===== src/Adapters.antt =====
-- The registries of chain adapters, snipebot/src/chain_adapters/adapter_registry.rs. An adapter, and its
-- wrapper in the enum of its chain, is a value of any type; `kind` tells which arm the match on a name
-- in lower case takes.
pub mod Lookup
mod Tests
use diamond_bot_v.Base.{ℕ, Option, none, some, List, [], map, Dict, lookup, insert}

pub data ChainKind : Type 0 where
  ethereum bsc avalanche base arbitrum optimism polygon monad custom : ChainKind

pub record AdapterRegistry (A : Type 0) : Type 0 where
  pub adapters : Dict A
  pub ethereum_adapters : Dict A
  pub bsc_adapters : Dict A
  pub avalanche_adapters : Dict A
  pub base_adapters : Dict A
  pub arbitrum_adapters : Dict A
  pub optimism_adapters : Dict A
  pub polygon_adapters : Dict A
  pub monad_adapters : Dict A
  pub custom_adapters : Dict A

module _ {A : Type 0} where
  abbrev pub new : AdapterRegistry A
  new = record {
    adapters = [];
    ethereum_adapters = [];
    bsc_adapters = [];
    avalanche_adapters = [];
    base_adapters = [];
    arbitrum_adapters = [];
    optimism_adapters = [];
    polygon_adapters = [];
    monad_adapters = [];
    custom_adapters = [];
  }

  abbrev pub register : ℕ → A → AdapterRegistry A → AdapterRegistry A
  register name adapter r = record r { adapters = insert name adapter r.adapters }

  abbrev pub register_ethereum : ℕ → A → AdapterRegistry A → AdapterRegistry A
  register_ethereum name adapter r = record r {
    ethereum_adapters = insert name adapter r.ethereum_adapters;
  }

  abbrev pub register_bsc : ℕ → A → AdapterRegistry A → AdapterRegistry A
  register_bsc name adapter r = record r { bsc_adapters = insert name adapter r.bsc_adapters }

  abbrev pub register_avalanche : ℕ → A → AdapterRegistry A → AdapterRegistry A
  register_avalanche name adapter r = record r {
    avalanche_adapters = insert name adapter r.avalanche_adapters;
  }

  abbrev pub register_base : ℕ → A → AdapterRegistry A → AdapterRegistry A
  register_base name adapter r = record r { base_adapters = insert name adapter r.base_adapters }

  abbrev pub register_arbitrum : ℕ → A → AdapterRegistry A → AdapterRegistry A
  register_arbitrum name adapter r = record r {
    arbitrum_adapters = insert name adapter r.arbitrum_adapters;
  }

  abbrev pub register_optimism : ℕ → A → AdapterRegistry A → AdapterRegistry A
  register_optimism name adapter r = record r {
    optimism_adapters = insert name adapter r.optimism_adapters;
  }

  abbrev pub register_polygon : ℕ → A → AdapterRegistry A → AdapterRegistry A
  register_polygon name adapter r = record r {
    polygon_adapters = insert name adapter r.polygon_adapters;
  }

  abbrev pub register_monad : ℕ → A → AdapterRegistry A → AdapterRegistry A
  register_monad name adapter r = record r { monad_adapters = insert name adapter r.monad_adapters }

  abbrev pub register_custom : ℕ → A → AdapterRegistry A → AdapterRegistry A
  register_custom name adapter r = record r {
    custom_adapters = insert name adapter r.custom_adapters;
  }

  abbrev pub get : ℕ → AdapterRegistry A → Option A
  get name r = lookup name r.adapters

  abbrev pub get_ethereum : ℕ → AdapterRegistry A → Option A
  get_ethereum name r = lookup name r.ethereum_adapters

  abbrev pub get_bsc : ℕ → AdapterRegistry A → Option A
  get_bsc name r = lookup name r.bsc_adapters

  abbrev pub get_avalanche : ℕ → AdapterRegistry A → Option A
  get_avalanche name r = lookup name r.avalanche_adapters

  abbrev pub get_base : ℕ → AdapterRegistry A → Option A
  get_base name r = lookup name r.base_adapters

  abbrev pub get_arbitrum : ℕ → AdapterRegistry A → Option A
  get_arbitrum name r = lookup name r.arbitrum_adapters

  abbrev pub get_optimism : ℕ → AdapterRegistry A → Option A
  get_optimism name r = lookup name r.optimism_adapters

  abbrev pub get_polygon : ℕ → AdapterRegistry A → Option A
  get_polygon name r = lookup name r.polygon_adapters

  abbrev pub get_monad : ℕ → AdapterRegistry A → Option A
  get_monad name r = lookup name r.monad_adapters

  abbrev pub get_custom : ℕ → AdapterRegistry A → Option A
  get_custom name r = lookup name r.custom_adapters

  abbrev pub get_all_chain_names : AdapterRegistry A → List ℕ
  get_all_chain_names r = map (λ p. p.0) r.adapters

  abbrev pub get_all_adapters : AdapterRegistry A → List A
  get_all_adapters r = map (λ p. p.1) r.adapters

  -- The match on the name of the chain.
  abbrev pub register_wrapped : ChainKind → ℕ → A → AdapterRegistry A → AdapterRegistry A
  register_wrapped ethereum name adapter r = register_ethereum name adapter r
  register_wrapped bsc name adapter r = register_bsc name adapter r
  register_wrapped avalanche name adapter r = register_avalanche name adapter r
  register_wrapped base name adapter r = register_base name adapter r
  register_wrapped arbitrum name adapter r = register_arbitrum name adapter r
  register_wrapped optimism name adapter r = register_optimism name adapter r
  register_wrapped polygon name adapter r = register_polygon name adapter r
  register_wrapped monad name adapter r = register_monad name adapter r
  register_wrapped custom name adapter r = register_custom name adapter r

-- The two registries of the process: `ADAPTER_REGISTRY`, and that of `get_registry_internal`.
pub record Registries (A : Type 0) : Type 0 where
  pub global : AdapterRegistry A
  pub internal : AdapterRegistry A

module _ {A : Type 0} (kind : ℕ → ChainKind) where
  abbrev pub get_chain_adapter : ℕ → Registries A → Option A
  get_chain_adapter chain_name r = get chain_name r.global

  -- `add_wallet_to_adapter`, whose wallet it does not use, with the adapter that it finds.
  abbrev pub wrap_again : Option A → ℕ → Registries A → Option (Registries A)
  wrap_again none chain_name r = none
  wrap_again (some adapter) chain_name r =
      some (record r { global = register_wrapped (kind chain_name) chain_name adapter r.global })

  abbrev pub add_wallet_to_adapter : ℕ → ℕ → Registries A → Option (Registries A)
  add_wallet_to_adapter chain_name wallet r = wrap_again (get chain_name r.global) chain_name r

  abbrev pub register_adapter : ℕ → A → Registries A → Registries A
  register_adapter chain_name new_adapter r = record r {
    internal =
        register_wrapped (kind chain_name) chain_name new_adapter
          (register chain_name new_adapter r.internal);
  }
