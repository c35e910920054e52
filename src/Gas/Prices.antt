-- ===== src/Gas/Prices.antt =====
-- The prices that `GasOptimizer` proposes, from what it has at hand: the price of a retry, the legacy
-- price and the fees of EIP-1559. The multiplier of the legacy price is a literal times 1000.0 in the
-- code, which is exact. `get_optimized_gas_limit` reckons in floating point.
use diamond_bot_v.Base.{
  ℕ, zero, suc, ◌+◌, ◌*◌, ◌/◌, ◌%◌, ◌^◌, Option, none, some, List, [], ◌∷◌, ltb, if◌then◌else◌,
  length,
}
use diamond_bot_v.Words.{◌>>=◌, add256, mul256, sum256}
use diamond_bot_v.Gas.{
  NetworkCongestion, low, medium, high, very_high, GasOptimizerConfig, GasOptimizer, CachedGasData,
}
use diamond_bot_v.Gas.History.{back}

pub record FeeHistory : Type 0 where
  pub reward : List (List ℕ)
  pub base_fee_per_gas : List ℕ

abbrev pub or_else : Option ℕ → ℕ → ℕ
or_else none d = d
or_else (some a) d = a

abbrev pub base_price : Option ℕ → GasOptimizer → ℕ
base_price current o = or_else current (or_else (back o.gas_price_history) 50_000_000_000)

abbrev pub increase_percent : ℕ → ℕ
increase_percent zero = 0
increase_percent (suc zero) = 20
increase_percent (suc (suc zero)) = 50
increase_percent (suc (suc (suc zero))) = 100
increase_percent (suc (suc (suc (suc n)))) = 200

abbrev pub capped : ℕ → ℕ → ℕ
capped limit price = if ltb limit price then limit else price

-- The price of the given retry.
unfoldable pub get_optimized_gas_price : ℕ → Option ℕ → GasOptimizer → Option ℕ
get_optimized_gas_price zero current o = some (base_price current o)
get_optimized_gas_price (suc n) current o = do
  p ← mul256 (base_price current o) (100 + increase_percent (suc n))
  some (capped o.config.max_gas_price (p / 100))

abbrev pub multiplier : NetworkCongestion → ℕ
multiplier low = 1_050
multiplier medium = 1_100
multiplier high = 1_200
multiplier very_high = 1_300

-- `as_u128` panics where the price does not fit; the product wraps around.
abbrev pub legacy_price : NetworkCongestion → ℕ → Option ℕ
legacy_price congestion price =
    if ltb price (2 ^ 128) then some (price * multiplier congestion % 2 ^ 128 / 1_000) else none

abbrev pub push_median : List ℕ → List ℕ → List ℕ
push_median (a ∷ b ∷ rest) fees = b ∷ fees
push_median reward fees = fees

-- The second percentile of each block.
unfoldable pub priority_fees : List (List ℕ) → List ℕ
priority_fees [] = []
priority_fees (r ∷ rs) = push_median r (priority_fees rs)

-- The average of the node's fees, the cached fee, or 1.5 Gwei.
abbrev pub priority_fee_of : List ℕ → Option ℕ → Option ℕ
priority_fee_of [] cached = some (or_else cached 1_500_000_000)
priority_fee_of (f ∷ fs) cached = do sum ← sum256 0 (f ∷ fs); some (sum / length (f ∷ fs))

abbrev pub boost_factor : NetworkCongestion → ℕ
boost_factor low = 100
boost_factor medium = 120
boost_factor high = 150
boost_factor very_high = 200

-- `min(boost_factor, 100 + priority_boost_percent)`; the sum is one of `u64`.
abbrev pub limited_boost : NetworkCongestion → GasOptimizerConfig → ℕ
limited_boost congestion config =
    capped ((100 + config.priority_boost_percent) % 2 ^ 64) (boost_factor congestion)

abbrev pub base_fee_multiplier : NetworkCongestion → ℕ
base_fee_multiplier low = 120
base_fee_multiplier medium = 130
base_fee_multiplier high = 150
base_fee_multiplier very_high = 200

-- The last base fee of the history, or else the cached one.
unfoldable pub latest_base_fee : List ℕ → Option ℕ → Option ℕ
latest_base_fee [] cached = cached
latest_base_fee (f ∷ []) cached = some f
latest_base_fee (f ∷ g ∷ fs) cached = latest_base_fee (g ∷ fs) cached

abbrev pub max_fee_of : NetworkCongestion → Option ℕ → ℕ → ℕ → Option ℕ
max_fee_of congestion none gas_price boosted = some gas_price
max_fee_of congestion (some base) gas_price boosted = do
  p ← mul256 base (base_fee_multiplier congestion)
  add256 (p / 100) boosted

-- The priority fee and the maximum fee of a transaction.
unfoldable pub fees_of : GasOptimizerConfig → CachedGasData → FeeHistory → Option (ℕ × ℕ)
fees_of config cached history = do
  fee ← priority_fee_of (priority_fees history.reward) cached.priority_fee
  p ← mul256 fee (limited_boost cached.network_congestion config)
  let boosted = p / 100
  max_fee ←
      max_fee_of cached.network_congestion
        (latest_base_fee history.base_fee_per_gas cached.base_fee) cached.gas_price boosted
  some (boosted, capped config.max_gas_price max_fee)
