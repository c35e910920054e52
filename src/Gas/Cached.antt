-- ===== src/Gas/Cached.antt =====
-- The calls of gas_optimizer.rs that share `GAS_PRICE_CACHE`. The answers of the chain's node are a
-- record, as each call asks for one thing once at most; the time is an argument.
use diamond_bot_v.Base.{
  ℕ, ◌*◌, Bool, true, false, Option, none, some, ltb, if◌then◌else◌, lookup, insert, retain,
}
use diamond_bot_v.Words.{sub64}
use diamond_bot_v.Gas.{
  NetworkCongestion, medium, GasOptimizer, CachedGasData, GasPriceCache, gas_cache_duration,
  BlockReply, failed, missing, found,
}
use diamond_bot_v.Gas.History.{above}
use diamond_bot_v.Gas.Prices.{FeeHistory, fees_of, legacy_price}

-- The chain's configuration, and what its node answers.
pub record Adapter : Type 0 where
  pub chain_id : ℕ
  pub eip1559_supported : Bool
  pub gas_price : Option ℕ
  pub block : BlockReply
  pub fee_history : Option FeeHistory

pub data Answer (A : Type 0) : Type 0 where
  ok : A → Answer A
  error panicked : Answer A

-- The fees of a `TransactionRequest`.
pub record TransactionFees : Type 0 where
  pub max_priority_fee_per_gas : Option ℕ
  pub max_fee_per_gas : Option ℕ
  pub gas_price : Option ℕ

abbrev pub is_fresh : ℕ → CachedGasData → Bool
is_fresh now cached = ltb (sub64 now cached.timestamp) gas_cache_duration

abbrev pub fresh_of : ℕ → Option CachedGasData → Option CachedGasData
fresh_of now none = none
fresh_of now (some cached) = if is_fresh now cached then some cached else none

-- What the cache still answers for a chain.
abbrev pub fresh : ℕ → ℕ → GasPriceCache → Option CachedGasData
fresh now chain_id cache = fresh_of now (lookup chain_id cache)

abbrev pub block_base_fee : Bool → BlockReply → Option ℕ
block_base_fee true (found fee) = fee
block_base_fee true failed = none
block_base_fee true missing = none
block_base_fee false block = none

abbrev pub new_data : ℕ → Adapter → NetworkCongestion → ℕ → CachedGasData
new_data now adapter congestion gas_price =
    let base_fee = block_base_fee adapter.eip1559_supported adapter.block in
    record {
      chain_id = adapter.chain_id;
      timestamp = now;
      gas_price = gas_price;
      priority_fee = above gas_price base_fee;
      base_fee = base_fee;
      network_congestion = congestion;
    }

abbrev pub fetch :
    Option ℕ → ℕ → Adapter → GasOptimizer → GasPriceCache → Answer CachedGasData × GasPriceCache
fetch none now adapter o cache = (error, cache)
fetch (some gas_price) now adapter o cache =
    let cached = new_data now adapter o.network_congestion gas_price in
    (ok cached, insert adapter.chain_id cached cache)

abbrev pub cached_or_fetch :
    Option CachedGasData
    → ℕ
    → Adapter
    → GasOptimizer
    → GasPriceCache
    → Answer CachedGasData × GasPriceCache
cached_or_fetch (some cached) now adapter o cache = (ok cached, cache)
cached_or_fetch none now adapter o cache = fetch adapter.gas_price now adapter o cache

unfoldable pub get_cached_gas_data :
    ℕ → Adapter → GasOptimizer → GasPriceCache → Answer CachedGasData × GasPriceCache
get_cached_gas_data now adapter o cache =
    cached_or_fetch (fresh now adapter.chain_id cache) now adapter o cache

abbrev pub or_panicked : {A : Type 0} → Option A → Answer A
or_panicked none = panicked
or_panicked (some a) = ok a

abbrev pub with_history : Option FeeHistory → CachedGasData → GasOptimizer → Answer (ℕ × ℕ)
with_history none cached o = error
with_history (some history) cached o = or_panicked (fees_of o.config cached history)

abbrev pub then_fees :
    Answer CachedGasData × GasPriceCache → Adapter → GasOptimizer → Answer (ℕ × ℕ) × GasPriceCache
then_fees (ok cached, cache) adapter o = (with_history adapter.fee_history cached o, cache)
then_fees (error, cache) adapter o = (error, cache)
then_fees (panicked, cache) adapter o = (panicked, cache)

unfoldable pub get_optimal_eip1559_fees :
    ℕ → Adapter → GasOptimizer → GasPriceCache → Answer (ℕ × ℕ) × GasPriceCache
get_optimal_eip1559_fees now adapter o cache =
    then_fees (get_cached_gas_data now adapter o cache) adapter o

abbrev pub legacy_answer : Option ℕ → GasOptimizer → Answer ℕ
legacy_answer none o = error
legacy_answer (some price) o = or_panicked (legacy_price o.network_congestion price)

-- The code takes the first fee of the pair for the maximum fee, and the pair has the priority fee first.
abbrev pub first_fee : Answer (ℕ × ℕ) → Answer ℕ
first_fee (ok (priority_fee, max_fee)) = ok priority_fee
first_fee error = error
first_fee panicked = panicked

unfoldable pub get_optimal_gas_price :
    ℕ → Adapter → GasOptimizer → GasPriceCache → Answer ℕ × GasPriceCache
get_optimal_gas_price now adapter o cache =
    if adapter.eip1559_supported
    then (let (fees, cache') = get_optimal_eip1559_fees now adapter o cache in
        (first_fee fees, cache'))
    else (legacy_answer adapter.gas_price o, cache)

abbrev pub dynamic_fees : Answer (ℕ × ℕ) → TransactionFees → Answer TransactionFees
dynamic_fees (ok (priority_fee, max_fee)) tx =
    ok (record tx { max_priority_fee_per_gas = some priority_fee; max_fee_per_gas = some max_fee })
dynamic_fees error tx = error
dynamic_fees panicked tx = panicked

abbrev pub legacy_fees : Answer ℕ → TransactionFees → Answer TransactionFees
legacy_fees (ok price) tx = ok (record tx { gas_price = some price })
legacy_fees error tx = error
legacy_fees panicked tx = panicked

unfoldable pub optimize_transaction :
    ℕ
    → Adapter
    → GasOptimizer
    → TransactionFees
    → GasPriceCache
    → Answer TransactionFees × GasPriceCache
optimize_transaction now adapter o tx cache =
    if adapter.eip1559_supported
    then (let (fees, cache') = get_optimal_eip1559_fees now adapter o cache in
        (dynamic_fees fees tx, cache'))
    else (let (price, cache') = get_optimal_gas_price now adapter o cache in
        (legacy_fees price tx, cache'))

abbrev pub price_only : ℕ → ℕ → ℕ → CachedGasData
price_only now chain_id gas_price = record {
  chain_id = chain_id;
  timestamp = now;
  gas_price = gas_price;
  priority_fee = none;
  base_fee = none;
  network_congestion = medium;
}

abbrev pub fetch_price : Option ℕ → ℕ → ℕ → GasPriceCache → Answer ℕ × GasPriceCache
fetch_price none now chain_id cache = (error, cache)
fetch_price (some gas_price) now chain_id cache =
    (ok gas_price, insert chain_id (price_only now chain_id gas_price) cache)

abbrev pub price_or_fetch :
    Option CachedGasData → ℕ → Adapter → GasPriceCache → Answer ℕ × GasPriceCache
price_or_fetch (some cached) now adapter cache = (ok cached.gas_price, cache)
price_or_fetch none now adapter cache = fetch_price adapter.gas_price now adapter.chain_id cache

unfoldable pub get_current_gas_price : ℕ → Adapter → GasPriceCache → Answer ℕ × GasPriceCache
get_current_gas_price now adapter cache =
    price_or_fetch (fresh now adapter.chain_id cache) now adapter cache

unfoldable pub cleanup_gas_cache : ℕ → GasPriceCache → GasPriceCache
cleanup_gas_cache now cache =
    retain (λ e. ltb (sub64 now e.1.timestamp) (gas_cache_duration * 2)) cache
