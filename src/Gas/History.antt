-- ===== src/Gas/History.antt =====
-- The histories of `GasOptimizer`: `update_gas_price_history`, `update_network_congestion` and the
-- averages. What the node answers and the times that the clock gives are arguments.
use diamond_bot_v.Base.{
  ℕ, zero, suc, ◌-◌, ◌/◌, ◌^◌, Bool, true, false, ◌||◌, Option, none, some, List, [], ◌∷◌, map, ltb,
  leb, if◌then◌else◌, length, push, insert,
}
use diamond_bot_v.Words.{◌>>=◌, mul256, sum256, sub64}
use diamond_bot_v.Gas.{
  NetworkCongestion, low, medium, high, very_high, GasOptimizer, GasPriceCache, BlockReply, failed,
  missing, found,
}

-- `iter().rev()`
unfoldable pub rev_onto : List (ℕ × ℕ) → List (ℕ × ℕ) → List (ℕ × ℕ)
rev_onto [] out = out
rev_onto (x ∷ xs) out = rev_onto xs (x ∷ out)

-- `take(n)`
unfoldable pub take : ℕ → List (ℕ × ℕ) → List (ℕ × ℕ)
take zero xs = []
take (suc n) [] = []
take (suc n) (x ∷ xs) = x ∷ take n xs

-- `samples[i].1`
unfoldable pub price_at : ℕ → List (ℕ × ℕ) → ℕ
price_at i [] = 0
price_at zero ((t, p) ∷ xs) = p
price_at (suc i) (x ∷ xs) = price_at i xs

abbrev pub prices : List (ℕ × ℕ) → List ℕ
prices = map (λ s. s.1)

abbrev pub distance : ℕ → ℕ → ℕ
distance avg price = if ltb avg price then price - avg else avg - price

-- `(newest - oldest) * 100 / oldest`, where the price has risen.
abbrev pub rise : ℕ → ℕ → Option ℕ
rise newest oldest =
    if ltb 0 oldest
    then (if ltb oldest newest
        then (do p ← mul256 (newest - oldest) 100; some (p / oldest))
        else some 0)
    else some 0

abbrev pub growth_rate : List (ℕ × ℕ) → Option ℕ
growth_rate samples =
    if leb 5 (length samples) then rise (price_at 0 samples) (price_at 4 samples) else some 0

abbrev pub percent_of : ℕ → ℕ → Option ℕ
percent_of variance avg = if ltb 0 avg then (do p ← mul256 variance 100; some (p / avg)) else some 0

abbrev pub congestion_at : ℕ → ℕ → NetworkCongestion
congestion_at growth variance =
    if ltb 20 growth || ltb 30 variance
    then very_high
    else if ltb 10 growth || ltb 15 variance
    then high
    else if ltb 5 growth || ltb 5 variance
    then medium
    else low

-- The level of congestion that the samples, the newest first, show.
unfoldable pub measured : List (ℕ × ℕ) → Option NetworkCongestion
measured samples = do
  sum ← sum256 0 (prices samples)
  let avg = sum / length samples
  spread ← sum256 0 (map (distance avg) (prices samples))
  variance ← percent_of (spread / length samples) avg
  growth ← growth_rate samples
  some (congestion_at growth variance)

-- The ten newest samples.
abbrev pub recent : List (ℕ × ℕ) → List (ℕ × ℕ)
recent history = take 10 (rev_onto history [])

unfoldable pub update_network_congestion : GasOptimizer → Option GasOptimizer
update_network_congestion o = if ltb (length o.gas_price_history) 2 then some o else do
  congestion ← measured (recent o.gas_price_history)
  some (record o { network_congestion = congestion })

-- `back().map(|(_, fee)| *fee)`
unfoldable pub back : List (ℕ × ℕ) → Option ℕ
back [] = none
back ((t, p) ∷ []) = some p
back (x ∷ y ∷ xs) = back (y ∷ xs)

-- What the price holds beyond the base fee.
abbrev pub above : ℕ → Option ℕ → Option ℕ
above gas_price none = none
above gas_price (some base) = if ltb base gas_price then some (gas_price - base) else none

unfoldable pub update_gas_price_cache : ℕ → ℕ → GasOptimizer → GasPriceCache → GasPriceCache
update_gas_price_cache now gas_price o cache =
    insert o.chain_id
      (record {
        chain_id = o.chain_id;
        timestamp = now;
        gas_price = gas_price;
        priority_fee = above gas_price (back o.base_fee_history);
        base_fee = back o.base_fee_history;
        network_congestion = o.network_congestion;
      })
      cache

-- Drops the samples at the front that are older than the window.
unfoldable pub drop_old : ℕ → ℕ → List (ℕ × ℕ) → List (ℕ × ℕ)
drop_old now window [] = []
drop_old now window ((t, p) ∷ h) =
    let rest = drop_old now window h in if ltb window (sub64 now t) then rest else (t, p) ∷ h

abbrev pub push_base_fee : ℕ → BlockReply → List (ℕ × ℕ) → List (ℕ × ℕ)
push_base_fee now failed h = h
push_base_fee now missing h = h
push_base_fee now (found none) h = h
push_base_fee now (found (some fee)) h = push h (now, fee)

-- What an update does before it asks the node.
abbrev pub trimmed : ℕ → GasOptimizer → GasOptimizer
trimmed now o = record o {
  last_update = now;
  gas_price_history = drop_old now o.config.history_window o.gas_price_history;
  base_fee_history = drop_old now o.config.history_window o.base_fee_history;
}

abbrev pub sampled : ℕ → ℕ → BlockReply → GasOptimizer → GasOptimizer
sampled now gas_price block o = record o {
  gas_price_history = push o.gas_price_history (now, gas_price);
  base_fee_history = push_base_fee now block o.base_fee_history;
}

-- Whether an update gave `Ok`, and what it left.
pub record Updated : Type 0 where
  pub is_ok : Bool
  pub optimizer : GasOptimizer
  pub cache : GasPriceCache

-- The metric takes the price as a `u64`: `as_u64` panics where it does not fit.
abbrev pub finish : ℕ → ℕ → GasPriceCache → GasOptimizer → Option Updated
finish now' gas_price cache o =
    if ltb gas_price (2 ^ 64)
    then some (record {
      is_ok = true;
      optimizer = o;
      cache = update_gas_price_cache now' gas_price o cache;
    })
    else none

abbrev pub add_sample :
    ℕ → ℕ → Option ℕ → BlockReply → GasPriceCache → GasOptimizer → Option Updated
add_sample now now' none block cache o =
    some (record { is_ok = false; optimizer = o; cache = cache })
add_sample now now' (some gas_price) block cache o = do
  o' ← update_network_congestion (sampled now gas_price block o)
  finish now' gas_price cache o'

-- With the times of both readings of the clock, the node's price and its newest block.
unfoldable pub update_gas_price_history :
    ℕ → ℕ → Option ℕ → BlockReply → GasPriceCache → GasOptimizer → Option Updated
update_gas_price_history now now' price block cache o =
    if ltb (sub64 now o.last_update) o.config.sample_interval
    then some (record { is_ok = true; optimizer = o; cache = cache })
    else add_sample now now' price block cache (trimmed now o)

abbrev pub average : List (ℕ × ℕ) → Option (Option ℕ)
average [] = some none
average (x ∷ h) = do sum ← sum256 0 (prices (x ∷ h)); some (some (sum / length (x ∷ h)))

abbrev pub get_average_gas_price : GasOptimizer → Option (Option ℕ)
get_average_gas_price o = average o.gas_price_history

abbrev pub get_average_base_fee : GasOptimizer → Option (Option ℕ)
get_average_base_fee o = average o.base_fee_history
