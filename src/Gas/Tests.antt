-- ===== src/Gas/Tests.antt =====
-- Tests of the gas prices.
use diamond_bot_v.Gas.Steady.{steady_is_low}
use diamond_bot_v.Base.{
  ℕ, ◌^◌, ◌≤◌, ◌≡◌, ◌↔◌, refl, true, false, Option, none, some, [], ◌∷◌, arith,
}
use diamond_bot_v.Words.{sum256, sub64}
use diamond_bot_v.Gas.{
  GasOptimizer, CachedGasData, failed, missing, found, new, low, medium, high, very_high,
  default_config, set_sample_interval, set_chain_id, set_network_congestion, get_network_congestion,
  set_gas_price_limit, set_max_boost_percent,
}
use diamond_bot_v.Gas.History.{
  rev_onto, take, price_at, measured, update_network_congestion, back, update_gas_price_cache,
  drop_old, update_gas_price_history, Updated, get_average_gas_price, get_average_base_fee,
}
use diamond_bot_v.Gas.Prices.{
  FeeHistory, get_optimized_gas_price, priority_fees, latest_base_fee, fees_of, legacy_price,
}
use diamond_bot_v.Gas.Cached.{
  Adapter, ok, get_cached_gas_data, get_optimal_eip1559_fees, TransactionFees, cleanup_gas_cache,
  fresh,
}
use diamond_bot_v.Gas.Tips.{sum_saturating, tips_of, collect, calculate_priority_fee}
use diamond_bot_v.Gas.Window.{updates, sets_interval, here, next, InWindow, Reach-InWindow}
use diamond_bot_v.Gas.Limits.{retry_prices_rise, fees_cover_tip}
use diamond_bot_v.Gas.Answers.{cleanup_keeps_answers}

abbrev start : GasOptimizer
start = new 1_000 50

-- Two updates 40 seconds apart, and one that comes too soon.
abbrev sampled_twice : GasOptimizer
sampled_twice = record start {
  gas_price_history = (5_000, 100) ∷ (5_040, 100) ∷ [];
  base_fee_history = (5_000, 80) ∷ [];
  last_update = 5_040;
  network_congestion = low;
}

abbrev first_update : Option Updated
first_update = update_gas_price_history 5_000 5_000 (some 100) (found (some 80)) [] start

abbrev after_first : Updated
after_first = record {
  is_ok = true;
  optimizer = record start {
    gas_price_history = (5_000, 100) ∷ [];
    base_fee_history = (5_000, 80) ∷ [];
    last_update = 5_000;
  };
  cache =
      (
        1,
        record {
          chain_id = 1;
          timestamp = 5_000;
          gas_price = 100;
          priority_fee = some 20;
          base_fee = some 80;
          network_congestion = medium;
        },
      )
      ∷ [];
}

first_update_lem : first_update ≡ some after_first
unfolding update_gas_price_history update_network_congestion drop_old update_gas_price_cache back
    sub64
first_update_lem = refl

abbrev after_second : Updated
after_second = record {
  is_ok = true;
  optimizer = sampled_twice;
  cache =
      (
        1,
        record {
          chain_id = 1;
          timestamp = 5_041;
          gas_price = 100;
          priority_fee = some 20;
          base_fee = some 80;
          network_congestion = low;
        },
      )
      ∷ [];
}

second_update_lem :
    update_gas_price_history 5_040 5_041 (some 100) missing after_first.cache after_first.optimizer
    ≡ some after_second
unfolding update_gas_price_history update_network_congestion drop_old update_gas_price_cache back
    sub64 measured rev_onto take sum256
second_update_lem = refl

-- A node that gives no price leaves the time of the update, and the next try within the interval
-- does nothing.
failed_update :
    update_gas_price_history 5_040 5_040 none failed [] after_first.optimizer
    ≡ some (record {
      is_ok = false;
      optimizer = record after_first.optimizer { last_update = 5_040 };
      cache = [];
    })
unfolding update_gas_price_history drop_old
failed_update = refl

spike :
    update_network_congestion (record start {
      gas_price_history = (1, 100) ∷ (2, 100) ∷ (3, 101) ∷ (4, 102) ∷ (5, 125) ∷ [];
    })
    ≡ some (record start {
      gas_price_history = (1, 100) ∷ (2, 100) ∷ (3, 101) ∷ (4, 102) ∷ (5, 125) ∷ [];
      network_congestion = very_high;
    })
unfolding update_network_congestion measured rev_onto take sum256 price_at
spike = refl

averages :
    (get_average_gas_price sampled_twice ≡ some (some 100))
    × (get_average_base_fee sampled_twice ≡ some (some 80))
    × (get_average_gas_price start ≡ some none)
unfolding sum256
averages = (refl, refl, refl)

settings :
    (set_chain_id 56 start).chain_id ≡ 56
    × (get_network_congestion (set_network_congestion high start) ≡ high)
    × ((set_gas_price_limit 7 start).config.max_gas_price ≡ 7)
    × ((set_max_boost_percent 7 start).config.max_boost_percent ≡ 7)
settings = (refl, refl, refl, refl)

-- The first price is not limited, those of retries are.
retry_prices :
    (get_optimized_gas_price 0 (some 5_000) start ≡ some 5_000)
    × (get_optimized_gas_price 1 (some 5_000) start ≡ some 1_000)
    × (get_optimized_gas_price 2 none sampled_twice ≡ some 150)
unfolding get_optimized_gas_price back
retry_prices = (refl, refl, refl)

legacy_prices : (legacy_price high 100 ≡ some 120) × (legacy_price low (2 ^ 128) ≡ none)
legacy_prices = (refl, refl)

abbrev chain : Adapter
chain = record {
  chain_id = 1;
  eip1559_supported = true;
  gas_price = some 100;
  block = found (some 80);
  fee_history = some (record {
    reward = (1 ∷ 10 ∷ 20 ∷ []) ∷ (1 ∷ 30 ∷ 40 ∷ []) ∷ (7 ∷ []) ∷ [];
    base_fee_per_gas = 70 ∷ 90 ∷ [];
  });
}

abbrev chain_data : CachedGasData
chain_data = record {
  chain_id = 1;
  timestamp = 5_000;
  gas_price = 100;
  priority_fee = some 20;
  base_fee = some 80;
  network_congestion = medium;
}

abbrev chain_history : FeeHistory
chain_history = record {
  reward = (1 ∷ 10 ∷ 20 ∷ []) ∷ (1 ∷ 30 ∷ 40 ∷ []) ∷ (7 ∷ []) ∷ [];
  base_fee_per_gas = 70 ∷ 90 ∷ [];
}

chain_fees : fees_of default_config chain_data chain_history ≡ some (24, 141)
unfolding fees_of priority_fees latest_base_fee sum256
chain_fees = refl

last_fee : latest_base_fee chain_history.base_fee_per_gas chain_data.base_fee ≡ some 90
unfolding latest_base_fee
last_fee = refl

chain_answer : (get_optimal_eip1559_fees 5_000 chain start []).0 ≡ ok (24, 141)
unfolding get_optimal_eip1559_fees get_cached_gas_data fees_of priority_fees latest_base_fee sum256
chain_answer = refl

abbrev no_fees : TransactionFees
no_fees = record { max_priority_fee_per_gas = none; max_fee_per_gas = none; gas_price = none }

tip_entry :
    calculate_priority_fee 3 5_000 12
      (λ b. some (record {
        base_fee_per_gas = some 50;
        transactions =
            some (record { max_fee_per_gas = some 60; max_priority_fee_per_gas = some 20 })
            ∷ none
            ∷ some (record { max_fee_per_gas = some 90; max_priority_fee_per_gas = some b })
            ∷ some (record { max_fee_per_gas = some 40; max_priority_fee_per_gas = some 20 })
            ∷ [];
      }))
      []
    ≡ (8, (3, record { value = 8; timestamp = 5_000 }) ∷ [])
unfolding calculate_priority_fee collect tips_of sum_saturating
tip_entry = refl

Reach-InWindow_example : InWindow (set_sample_interval 10 sampled_twice)
Reach-InWindow_example = Reach-InWindow 1_000 50 (
    next
      (next
        (next here (
          updates 5_000 5_000 (some 100) (found (some 80)) [] after_first first_update_lem
            (omega arith) (omega arith)))
        (updates 5_040 5_041 (some 100) missing after_first.cache after_second second_update_lem
          (omega arith) (omega arith)))
      (sets_interval 10))

retry_prices_rise_example :
    (p q : ℕ) × (get_optimized_gas_price 1 (some 100) start ≡ some p)
    × (get_optimized_gas_price 7 (some 100) start ≡ some q)
    × (100 ≤ p)
    × (p ≤ q)
    × (q ≤ 1_000)
retry_prices_rise_example =
    retry_prices_rise 1 7 (some 100) start (omega arith) (omega arith) (omega arith)

fees_cover_tip_example : ((24 ≤ 141) ↔ (24 ≤ 500_000_000_000)) × (141 ≤ 500_000_000_000)
fees_cover_tip_example =
    fees_cover_tip default_config chain_data chain_history 90 24 141 last_fee chain_fees

cleanup_keeps_answers_example :
    fresh 5_400 1 (cleanup_gas_cache 5_100 ((1, chain_data) ∷ []))
    ≡ fresh 5_400 1 ((1, chain_data) ∷ [])
cleanup_keeps_answers_example =
    cleanup_keeps_answers 5_100 5_400 1 ((1, chain_data) ∷ []) (omega arith, tt) (refl, tt)
      (omega arith) (omega arith)

abbrev steady : GasOptimizer
steady = record start { gas_price_history = (1, 10) ∷ (2, 10) ∷ [] }

steady_is_low_example :
    update_network_congestion steady ≡ some (record steady { network_congestion = low })
steady_is_low_example = steady_is_low 10 steady (refl, (refl, tt)) (omega arith) (omega arith)
