-- ===== src/Rpc/Attempts.antt =====
-- How often an operation is tried, with which gas prices and waits.
use diamond_bot_v.Base.{
  ℕ, zero, suc, ◌+◌, ◌≤◌, ◌<◌, ◌≡◌, refl, ap, Option, none, some, List, [], ◌∷◌, length, arith,
  Bool-cases, Option-cases, inl, inr,
}
use diamond_bot_v.Words.{mul256}
use diamond_bot_v.Rpc.Errors.{BlockchainError, low_gas, classify, adjust_gas_for_retry}
use diamond_bot_v.Rpc.Retrying.{
  Reply, ok, err, Outcome, returned, failed, panicked, Trace, wait_time, next_price, or_three, ends,
  called, stops, after_reply, retry_loop, retry_blockchain_operation,
}

abbrev pub IsLe : Option ℕ → Option ℕ → Type 0
IsLe none none = Unit {0}
IsLe none (some b) = ⊥
IsLe (some a) none = ⊥
IsLe (some a) (some b) = a ≤ b

-- From the first price on, no price is below the one before it.
abbrev pub Rises : Option ℕ → List (Option ℕ) → Type 0
Rises p [] = Unit {0}
Rises p (q ∷ qs) = IsLe p q × Rises q qs

abbrev pub AllWithin : ℕ → List ℕ → Type 0
AllWithin bound [] = Unit {0}
AllWithin bound (w ∷ ws) = (w ≤ bound) × AllWithin bound ws

IsLe-refl : (p : Option ℕ) → IsLe p p
IsLe-refl none = tt
IsLe-refl (some a) = omega arith

adjust-le : (e : BlockchainError) (price p : ℕ) → adjust_gas_for_retry e price ≡ some p → price ≤ p
adjust-le (low_gas m) price p h = ground (arith, Option-cases (mul256 price 20))
adjust-le _ price p h = ground arith

next_price-le :
    (e : BlockchainError) (price p : Option ℕ) → next_price e price ≡ some p → IsLe price p
next_price-le e none p h = ground arith
next_price-le e (some price) p h = elim (Option-cases (adjust_gas_for_retry e price)) [
  | inl m ↦ ground (arith, m)
  | inr (q, m) ↦ ground (arith, m, adjust-le e price q m)
]

IsLe-trans : (p q r : Option ℕ) → IsLe p q → IsLe q r → IsLe p r
IsLe-trans none none r l m = m
IsLe-trans (some a) (some b) none l m = m
IsLe-trans (some a) (some b) (some c) l m = omega arith
IsLe-trans none (some b) r l m = absurd l
IsLe-trans (some a) none r l m = absurd l

Rises-from : (p q : Option ℕ) (ps : List (Option ℕ)) → IsLe p q → Rises q ps → Rises p ps
Rises-from p q [] l r = tt
Rises-from p q (x ∷ xs) l r = (IsLe-trans p q x l r.0, r.1)

wait_short : (n : ℕ) → wait_time n ≤ 30_000
wait_short n = ground arith

module _ {T : Type 0} where
  pub record IsBounded (bound : ℕ) (price : Option ℕ) (t : Trace T) : Type 0 where
    pub some_call : 1 ≤ length t.prices
    pub few_calls : length t.prices ≤ bound
    pub waits_between : length t.waits + 1 ≡ length t.prices
    pub short_waits : AllWithin 30_000 t.waits
    pub rising : Rises price t.prices

  Ends : ℕ → Option ℕ → Option (Trace T) → Type 0
  Ends bound price r = (t : Trace T) × (r ≡ some t) × IsBounded bound price t

  ends-Ends :
      (bound : ℕ) (price : Option ℕ) (outcome : Outcome T)
      → 0 < bound
      → Ends bound price (some (ends price outcome))
  unfolding Ends
  ends-Ends bound price outcome l = (
    ends price outcome,
    refl,
    record {
      some_call = omega arith;
      few_calls = omega arith;
      waits_between = omega arith;
      short_waits = tt;
      rising = (IsLe-refl price, tt);
    },
  )

  called-Ends :
      (bound n : ℕ) (price p : Option ℕ) (r : Option (Trace T))
      → IsLe price p
      → Ends bound p r
      → Ends (suc bound) price (called price (wait_time n) r)
  unfolding Ends
  called-Ends bound n price p r l (t, e, b) = (
    record t { prices = price ∷ t.prices; waits = wait_time n ∷ t.waits },
    ap (called price (wait_time n)) e,
    record {
      some_call = omega arith;
      few_calls = omega (arith, b.few_calls);
      waits_between = omega (arith, b.waits_between);
      short_waits = (wait_short n, b.short_waits);
      rising = (IsLe-refl price, Rises-from price p t.prices l b.rising);
    },
  )

  module _ (max_retries : ℕ) where
    after_reply-Ends :
        (reply : Reply T) (fuel retries : ℕ) (price : Option ℕ) (rest : Option ℕ → Option (Trace T))
        → max_retries ≤ retries + suc fuel
        → ((p : Option ℕ) → 0 < fuel → Ends fuel p (rest p))
        → Ends (suc fuel) price (after_reply reply max_retries retries price rest)
    after_reply-Ends (ok t) fuel retries price rest l more =
        ends-Ends (suc fuel) price (returned t) (omega arith)
    after_reply-Ends (err s) fuel retries price rest l more =
        elim (Bool-cases (stops max_retries (retries + 1) (classify s))) [
          | inl e ↦ rw e (ends-Ends (suc fuel) price (failed (classify s)) (omega arith))
          | inr e ↦
              let left : 0 < fuel = ground (arith, e) in
              elim (Option-cases (next_price (classify s) price)) [
                | inl m ↦ rw (e, m) (ends-Ends (suc fuel) price panicked (omega arith))
                | inr (p, m) ↦
                    rw (e, m)
                      (called-Ends fuel (retries + 1) price p (rest p)
                        (next_price-le (classify s) price p m) (more p left))
              ]
        ]

    retry_loop-Ends :
        (f : ℕ → Option ℕ → Reply T) (fuel retries : ℕ) (price : Option ℕ)
        → 0 < fuel
        → max_retries ≤ retries + fuel
        → Ends fuel price (retry_loop f max_retries fuel retries price)
    unfolding retry_loop
    retry_loop-Ends f zero retries price l m = absurd (omega arith)
    retry_loop-Ends f (suc fuel) retries price l m =
        after_reply-Ends (f retries price) fuel retries price
          (retry_loop f max_retries fuel (retries + 1)) m
          λ p left. retry_loop-Ends f fuel (retries + 1) p left (omega arith)

or_three-pos : (n : ℕ) → 0 < or_three n
or_three-pos n = ground arith

-- However the operation answers, `retry_blockchain_operation` comes to an end: it makes at least one
-- call and as many as allowed at most, three where none are; there is one wait of at most thirty
-- seconds between two calls; and the gas price never falls from the given one on.
pub retry_blockchain_operation-Ends :
    {T : Type 0} (f : ℕ → Option ℕ → Reply T) (price : Option ℕ) (max_retries : ℕ)
    → (t : Trace T) × (retry_blockchain_operation f price max_retries ≡ some t)
      × IsBounded (or_three max_retries) price t
unfolding Ends
retry_blockchain_operation-Ends f price max_retries =
    retry_loop-Ends (or_three max_retries) f (or_three max_retries) 0 price
      (or_three-pos max_retries) (omega arith)
