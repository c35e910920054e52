-- ===== src/Gas.antt =====
-- Gas prices, snipebot/src/trade/gas_optimizer.rs: the data of `GasOptimizer`, its settings and its
-- cache of prices. The children have its histories (History), the prices that it proposes (Prices) and
-- the calls over the cache (Cached).
pub mod History
pub mod Prices
pub mod Cached
pub mod Tips
pub mod Window
pub mod Steady
pub mod Limits
pub mod Answers
mod Tests
use diamond_bot_v.Base.{ℕ, Bool, true, false, Option, none, some, List, [], Dict}

pub data NetworkCongestion : Type 0 where
  low medium high very_high : NetworkCongestion

pub record GasOptimizerConfig : Type 0 where
  pub max_gas_price : ℕ
  pub max_boost_percent : ℕ
  pub priority_boost_percent : ℕ
  pub sample_interval : ℕ
  pub history_window : ℕ
  pub enable_dynamic_adjustment : Bool
  pub adaptive_boost_mode : Bool

abbrev pub default_config : GasOptimizerConfig
default_config = record {
  max_gas_price = 500_000_000_000;
  max_boost_percent = 50;
  priority_boost_percent = 20;
  sample_interval = 30;
  history_window = 3_600;
  enable_dynamic_adjustment = true;
  adaptive_boost_mode = true;
}

-- A sample is a time and a price; the oldest comes first.
pub record GasOptimizer : Type 0 where
  pub config : GasOptimizerConfig
  pub gas_price_history : List (ℕ × ℕ)
  pub base_fee_history : List (ℕ × ℕ)
  pub network_congestion : NetworkCongestion
  pub last_update : ℕ
  pub chain_id : ℕ

pub record CachedGasData : Type 0 where
  pub chain_id : ℕ
  pub timestamp : ℕ
  pub gas_price : ℕ
  pub priority_fee : Option ℕ
  pub base_fee : Option ℕ
  pub network_congestion : NetworkCongestion

-- `GAS_PRICE_CACHE`
abbrev pub GasPriceCache : Type 0
GasPriceCache = Dict CachedGasData

abbrev pub gas_cache_duration : ℕ
gas_cache_duration = 300

-- What the node answers to `get_block(Latest)`: an error, no block, or a block with its base fee.
pub data BlockReply : Type 0 where
  failed missing : BlockReply
  found : Option ℕ → BlockReply

abbrev pub with_config : GasOptimizerConfig → GasOptimizer
with_config config = record {
  config = config;
  gas_price_history = [];
  base_fee_history = [];
  network_congestion = medium;
  last_update = 0;
  chain_id = 1;
}

abbrev pub new : ℕ → ℕ → GasOptimizer
new gas_price_limit max_boost_percent = with_config (record default_config {
  max_gas_price = gas_price_limit;
  max_boost_percent = max_boost_percent;
})

abbrev pub set_chain_id : ℕ → GasOptimizer → GasOptimizer
set_chain_id chain_id o = record o { chain_id = chain_id }

abbrev pub set_network_congestion : NetworkCongestion → GasOptimizer → GasOptimizer
set_network_congestion congestion o = record o { network_congestion = congestion }

abbrev pub set_sample_interval : ℕ → GasOptimizer → GasOptimizer
set_sample_interval interval o = record o {
  config = record o.config { sample_interval = interval };
}

abbrev pub set_gas_price_limit : ℕ → GasOptimizer → GasOptimizer
set_gas_price_limit limit o = record o { config = record o.config { max_gas_price = limit } }

abbrev pub set_max_boost_percent : ℕ → GasOptimizer → GasOptimizer
set_max_boost_percent percent o = record o {
  config = record o.config { max_boost_percent = percent };
}

abbrev pub get_network_congestion : GasOptimizer → NetworkCongestion
get_network_congestion o = o.network_congestion
