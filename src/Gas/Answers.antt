-- ===== src/Gas/Answers.antt =====
-- What the caches of prices and of tips answer, and which of the two fees `get_optimal_gas_price` gives.
use diamond_bot_v.Base.{
  ℕ, ◌+◌, ◌*◌, ◌^◌, ◌≤◌, ◌<◌, ◌≡◌, refl, sym, ap, subst, Bool, false, Option, Dict, none, some, [],
  ◌∷◌, ltb, arith, inl, inr, Bool-cases, lookup, insert, retain, HasDistinctKeys,
  lookup-insert_self,
}
use diamond_bot_v.Words.{sub64}
use diamond_bot_v.Gas.Tips.{
  TxBlock, TipEntry, fresh_tip, calculate_priority_fee, collect, tip_from, tip_or_collect,
}
use diamond_bot_v.Gas.{CachedGasData, GasPriceCache, GasOptimizer, gas_cache_duration}
use diamond_bot_v.Gas.Cached.{
  Adapter, ok, fresh, get_cached_gas_data, cleanup_gas_cache, get_current_gas_price, price_only,
  cached_or_fetch,
}

-- The times in the cache are not later than `now`.
abbrev pub IsPast : ℕ → GasPriceCache → Type 0
IsPast now [] = Unit {0}
IsPast now ((k, c) ∷ cache) = (c.timestamp ≤ now) × IsPast now cache

absent_stays :
    (p : ℕ × CachedGasData → Bool) (k : ℕ) (cache : GasPriceCache)
    → lookup k cache ≡ none
    → lookup k (retain p cache) ≡ none
absent_stays p k [] e = refl
absent_stays p k ((j, c) ∷ cache) e = ground (arith, absent_stays p k cache)

dropped_is_stale :
    (now later t : ℕ)
    → t ≤ now
    → now ≤ later
    → later < 2 ^ 64
    → ltb (sub64 now t) (gas_cache_duration * 2) ≡ false
    → ltb (sub64 later t) gas_cache_duration ≡ false
dropped_is_stale now later t a b c e = ground arith

-- A cleanup takes nothing away that the cache would still have answered: for a cache with one entry
-- for a chain and none from the future, the answer for any chain at any time from the cleanup on is
-- the same with it and without it.
pub cleanup_keeps_answers :
    (now later chain_id : ℕ) (cache : GasPriceCache)
    → IsPast now cache
    → HasDistinctKeys cache
    → now ≤ later
    → later < 2 ^ 64
    → fresh later chain_id (cleanup_gas_cache now cache) ≡ fresh later chain_id cache
unfolding cleanup_gas_cache
cleanup_keeps_answers now later k [] past once l m = refl
cleanup_keeps_answers now later k ((j, c) ∷ cache) past once l m =
    elim (Bool-cases (ltb (sub64 now c.timestamp) (gas_cache_duration * 2))) [
      | inl kept ↦
          rw kept (ground (arith, cleanup_keeps_answers now later k cache past.1 once.1 l m))
      | inr dropped ↦ rw dropped (
          ground (
            arith,
            cleanup_keeps_answers now later k cache past.1 once.1 l m,
            absent_stays (λ e. ltb (sub64 now e.1.timestamp) (gas_cache_duration * 2)) j cache
                once.0,
            dropped_is_stale now later c.timestamp past.0 l m dropped,
          ))
    ]

-- After `get_current_gas_price` has asked the node, `get_cached_gas_data` gives for 300 seconds a
-- record without base fee and priority fee, at medium congestion, whatever the node would answer, and
-- leaves the cache as it is.
pub price_query_hides_fees :
    (now later price : ℕ) (adapter adapter' : Adapter) (o : GasOptimizer) (cache : GasPriceCache)
    → fresh now adapter.chain_id cache ≡ none
    → adapter.gas_price ≡ some price
    → adapter'.chain_id ≡ adapter.chain_id
    → now ≤ later
    → later < now + gas_cache_duration
    → later < 2 ^ 64
    → let after = (get_current_gas_price now adapter cache).1 in
      get_cached_gas_data later adapter' o after
      ≡ (ok (price_only now adapter.chain_id price), after)
unfolding get_current_gas_price get_cached_gas_data
price_query_hides_fees now later price adapter adapter' o cache e f g l m n =
    let k = adapter.chain_id in
    let stored = price_only now k price in
    let after-eq : (get_current_gas_price now adapter cache).1 ≡ insert k stored cache =
      ground (arith, e, f) in
    let found : fresh later adapter'.chain_id (insert k stored cache) ≡ some stored =
      ground (arith, lookup-insert_self k stored cache) in
    rw after-eq (ap (λ r. cached_or_fetch r later adapter' o (insert k stored cache)) found)

-- Where the cache has no fresh tip, the average that `calculate_priority_fee` finds is its answer for a
-- minute, whatever the blocks of the chain hold by then.
pub tip_stays :
    (url now later latest latest' : ℕ) (blocks blocks' : ℕ → Option TxBlock) (cache : Dict TipEntry)
    → fresh_tip now (lookup url cache) ≡ none
    → now ≤ later
    → later < now + 60
    → later < 2 ^ 64
    → let first = calculate_priority_fee url now latest blocks cache in
      calculate_priority_fee url later latest' blocks' first.1 ≡ first
unfolding calculate_priority_fee
tip_stays url now later latest latest' blocks blocks' cache e l m n =
    let tip = tip_from (collect 10 latest blocks []) in
    let entry : TipEntry = record { value = tip; timestamp = now } in
    let cache' = insert url entry cache in
    let stored : calculate_priority_fee url now latest blocks cache ≡ (tip, cache') =
      ap (λ o. tip_or_collect o url now latest blocks cache) e in
    let found : fresh_tip later (lookup url cache') ≡ some entry =
      ground (arith, lookup-insert_self url entry cache) in
    subst (λ r. calculate_priority_fee url later latest' blocks' r.1 ≡ r) (sym stored)
      (ap (λ o. tip_or_collect o url later latest' blocks' cache') found)
