-- ===== src/Gas/Steady.antt =====
-- What a steady price says of the network.
use diamond_bot_v.Base.{
  ℕ, zero, suc, ◌+◌, ◌*◌, ◌^◌, ◌≤◌, ◌<◌, ◌≡◌, refl, some, List, [], ◌∷◌, map, length, arith,
}
use native.Mathlib.Nat.{mul-div_cancel_left, zero-div, mul-le-mul, le_refl}
use diamond_bot_v.Words.{sum256}
use diamond_bot_v.Gas.{GasOptimizer, low}
use diamond_bot_v.Gas.History.{
  rev_onto, take, prices, distance, measured, recent, update_network_congestion, price_at,
  growth_rate, percent_of,
}

-- Every sample has the price `p`.
abbrev pub IsSteady : ℕ → List (ℕ × ℕ) → Type 0
IsSteady p [] = Unit {0}
IsSteady p ((t, q) ∷ h) = (q ≡ p) × IsSteady p h

rev_onto-IsSteady :
    (p : ℕ) (h out : List (ℕ × ℕ)) → IsSteady p h → IsSteady p out → IsSteady p (rev_onto h out)
unfolding rev_onto
rev_onto-IsSteady p [] out s o = o
rev_onto-IsSteady p (x ∷ h) out s o = rev_onto-IsSteady p h (x ∷ out) s.1 (s.0, o)

length-rev_onto : (h out : List (ℕ × ℕ)) → length (rev_onto h out) ≡ length h + length out
unfolding rev_onto
length-rev_onto [] out = omega arith
length-rev_onto (x ∷ h) out = omega (arith, length-rev_onto h (x ∷ out))

take-IsSteady : (n p : ℕ) (h : List (ℕ × ℕ)) → IsSteady p h → IsSteady p (take n h)
unfolding take
take-IsSteady zero p h s = tt
take-IsSteady (suc n) p [] s = tt
take-IsSteady (suc n) p (x ∷ h) s = (s.0, take-IsSteady n p h s.1)

length-take : (n : ℕ) (h : List (ℕ × ℕ)) → length (take n h) ≤ n
unfolding take
length-take zero h = omega arith
length-take (suc n) [] = omega arith
length-take (suc n) (x ∷ h) = omega (arith, length-take n h)

length-take_pos : (n : ℕ) (h : List (ℕ × ℕ)) → 0 < length h → 0 < length (take (suc n) h)
unfolding take
length-take_pos n [] l = l
length-take_pos n (x ∷ h) l = omega arith

sum-IsSteady :
    (p acc : ℕ) (h : List (ℕ × ℕ))
    → IsSteady p h
    → acc + length h * p < 2 ^ 256
    → sum256 acc (prices h) ≡ some (acc + length h * p)
unfolding sum256
sum-IsSteady p acc [] s l = ground arith
sum-IsSteady p acc ((t, q) ∷ h) s l = ground (arith, sum-IsSteady p (acc + q) h s.1)

sum_zero-IsSteady :
    (p : ℕ) (h : List (ℕ × ℕ))
    → IsSteady p h
    → length h * p < 2 ^ 256
    → sum256 0 (prices h) ≡ some (length h * p)
sum_zero-IsSteady p h s l = ground (arith, sum-IsSteady p 0 h s)

spread-IsSteady :
    (p : ℕ) (h : List (ℕ × ℕ)) → IsSteady p h → sum256 0 (map (distance p) (prices h)) ≡ some 0
unfolding sum256
spread-IsSteady p [] s = refl
spread-IsSteady p ((t, q) ∷ h) s = ground (arith, spread-IsSteady p h s.1)

price_at-IsSteady : (p i : ℕ) (h : List (ℕ × ℕ)) → IsSteady p h → i < length h → price_at i h ≡ p
unfolding price_at
price_at-IsSteady p i [] s l = absurd (omega arith)
price_at-IsSteady p zero ((t, q) ∷ h) s l = s.0
price_at-IsSteady p (suc i) ((t, q) ∷ h) s l = price_at-IsSteady p i h s.1 (omega arith)

growth-IsSteady : (p : ℕ) (h : List (ℕ × ℕ)) → IsSteady p h → growth_rate h ≡ some 0
growth-IsSteady p h s = ground (arith, price_at-IsSteady p 0 h s, price_at-IsSteady p 4 h s)

percent_of_zero : (avg : ℕ) → percent_of 0 avg ≡ some 0
percent_of_zero avg = ground (arith, zero-div avg)

measured-IsSteady :
    (p : ℕ) (h : List (ℕ × ℕ))
    → IsSteady p h
    → 0 < length h
    → length h * p < 2 ^ 256
    → measured h ≡ some low
unfolding measured
measured-IsSteady p h s l m = rw (
  sum_zero-IsSteady p h s m,
  mul-div_cancel_left p l,
  spread-IsSteady p h s,
  zero-div (length h),
  percent_of_zero p,
  growth-IsSteady p h s,
)

-- If at least two samples are held, all of the same price, and ten times that price fits in 256 bits,
-- then the measurement does not panic and finds the congestion low, whatever it was before, and
-- changes nothing else.
pub steady_is_low :
    (p : ℕ) (o : GasOptimizer)
    → IsSteady p o.gas_price_history
    → 1 < length o.gas_price_history
    → 10 * p < 2 ^ 256
    → update_network_congestion o ≡ some (record o { network_congestion = low })
unfolding update_network_congestion
steady_is_low p o s l m =
    let h = o.gas_price_history in
    let onto = rev_onto h [] in
    let few : length (recent h) ≤ 10 = length-take 10 onto in
    let some_left : 0 < length (recent h) =
      length-take_pos 9 onto (omega (arith, length-rev_onto h [])) in
    let fits : length (recent h) * p < 2 ^ 256 = omega (arith, mul-le-mul few (le_refl p)) in
    let e =
      measured-IsSteady p (recent h) (take-IsSteady 10 p onto (rev_onto-IsSteady p h [] s tt))
        some_left fits in
    ground (arith, e)
