-- ===== src/Gas/Limits.antt =====
-- The limit on the gas price.
use diamond_bot_v.Base.{
  ℕ, zero, suc, ◌+◌, ◌*◌, ◌/◌, ◌^◌, ◌≤◌, ◌<◌, ◌≡◌, ◌↔◌, sym, ap, ◌∙◌, Option, some, arith,
  Option-cases,
}
use native.Mathlib.Nat.{mul-le-mul, le_refl, mul-div_cancel}
use diamond_bot_v.Words.{>>=-eq-some, ◌>>=◌, mul256}
use diamond_bot_v.Gas.{GasOptimizer, GasOptimizerConfig, CachedGasData, NetworkCongestion}
use diamond_bot_v.Gas.Prices.{
  FeeHistory, base_price, increase_percent, capped, get_optimized_gas_price, fees_of,
  latest_base_fee, priority_fee_of, priority_fees, limited_boost, max_fee_of, base_fee_multiplier,
}

increase-le : (n : ℕ) → increase_percent n ≤ 200
increase-le zero = omega arith
increase-le (suc zero) = omega arith
increase-le (suc (suc zero)) = omega arith
increase-le (suc (suc (suc zero))) = omega arith
increase-le (suc (suc (suc (suc n)))) = omega arith

increase_mono : (m n : ℕ) → m ≤ n → increase_percent m ≤ increase_percent n
increase_mono zero n l = omega arith
increase_mono (suc zero) zero l = omega arith
increase_mono (suc zero) (suc zero) l = omega arith
increase_mono (suc zero) (suc (suc zero)) l = omega arith
increase_mono (suc zero) (suc (suc (suc zero))) l = omega arith
increase_mono (suc zero) (suc (suc (suc (suc n)))) l = omega arith
increase_mono (suc (suc zero)) zero l = absurd (omega arith)
increase_mono (suc (suc zero)) (suc zero) l = absurd (omega arith)
increase_mono (suc (suc zero)) (suc (suc zero)) l = omega arith
increase_mono (suc (suc zero)) (suc (suc (suc zero))) l = omega arith
increase_mono (suc (suc zero)) (suc (suc (suc (suc n)))) l = omega arith
increase_mono (suc (suc (suc m))) zero l = absurd (omega arith)
increase_mono (suc (suc (suc m))) (suc zero) l = absurd (omega arith)
increase_mono (suc (suc (suc m))) (suc (suc zero)) l = absurd (omega arith)
increase_mono (suc (suc (suc zero))) (suc (suc (suc zero))) l = omega arith
increase_mono (suc (suc (suc (suc m)))) (suc (suc (suc zero))) l = absurd (omega arith)
increase_mono (suc (suc (suc zero))) (suc (suc (suc (suc n)))) l = omega arith
increase_mono (suc (suc (suc (suc m)))) (suc (suc (suc (suc n)))) l = omega arith

-- What a retry asks for, where no product overflows.
raised : ℕ → Option ℕ → GasOptimizer → ℕ
raised n current o =
    capped o.config.max_gas_price (base_price current o * (100 + increase_percent n) / 100)

checked-raised :
    (b i limit : ℕ)
    → b * (100 + i) < 2 ^ 256
    → (mul256 b (100 + i) >>= λ p. some (capped limit (p / 100)))
      ≡ some (capped limit (b * (100 + i) / 100))
checked-raised b i limit l = ground arith

capped-id : (limit price : ℕ) → price ≤ limit → capped limit price ≡ price
capped-id limit price l = ground arith

raised-zero :
    (current : Option ℕ) (o : GasOptimizer)
    → base_price current o ≤ o.config.max_gas_price
    → raised 0 current o ≡ base_price current o
unfolding raised
raised-zero current o k =
    let b = base_price current o in
    ap (capped o.config.max_gas_price) (mul-div_cancel b (omega arith))
    ∙ capped-id o.config.max_gas_price b k

price-raised :
    (n : ℕ) (current : Option ℕ) (o : GasOptimizer)
    → base_price current o * 300 < 2 ^ 256
    → base_price current o ≤ o.config.max_gas_price
    → get_optimized_gas_price n current o ≡ some (raised n current o)
unfolding get_optimized_gas_price raised
price-raised zero current o l k = ap some (sym (raised-zero current o k))
price-raised (suc n) current o l k =
    let b = base_price current o in
    let i = increase_percent (suc n) in
    let top : 100 + i ≤ 300 = omega (arith, increase-le (suc n)) in
    checked-raised b i o.config.max_gas_price (omega (arith, mul-le-mul (le_refl b) top))

capped_mono : (limit p q : ℕ) → p ≤ q → capped limit p ≤ capped limit q
capped_mono limit p q l = ground arith

capped-le : (limit p : ℕ) → capped limit p ≤ limit
capped-le limit p = ground arith

raised_mono :
    (m n : ℕ) (current : Option ℕ) (o : GasOptimizer)
    → m ≤ n
    → raised m current o ≤ raised n current o
unfolding raised
raised_mono m n current o l =
    let b = base_price current o in
    let more : 100 + increase_percent m ≤ 100 + increase_percent n =
      omega (arith, increase_mono m n l) in
    let h = mul-le-mul (le_refl b) more in capped_mono o.config.max_gas_price _ _ (omega arith)

raised_within :
    (n : ℕ) (current : Option ℕ) (o : GasOptimizer) → raised n current o ≤ o.config.max_gas_price
unfolding raised
raised_within n current o = capped-le o.config.max_gas_price _

-- Where the price to start from is within the limit and three times a hundred of it fits in 256 bits,
-- the price of every retry is defined, a later retry never asks for less than an earlier one, and
-- none asks for less than the price to start from or for more than the limit.
pub retry_prices_rise :
    (m n : ℕ) (current : Option ℕ) (o : GasOptimizer)
    → m ≤ n
    → base_price current o * 300 < 2 ^ 256
    → base_price current o ≤ o.config.max_gas_price
    → (p q : ℕ) × (get_optimized_gas_price m current o ≡ some p)
      × (get_optimized_gas_price n current o ≡ some q)
      × (base_price current o ≤ p)
      × (p ≤ q)
      × (q ≤ o.config.max_gas_price)
retry_prices_rise m n current o l fits k = (
  raised m current o,
  raised n current o,
  price-raised m current o fits k,
  price-raised n current o fits k,
  omega (arith, raised-zero current o k, raised_mono 0 m current o (omega arith)),
  raised_mono m n current o l,
  raised_within n current o,
)

max_fee-covers :
    (congestion : NetworkCongestion) (base price boosted fee : ℕ)
    → max_fee_of congestion (some base) price boosted ≡ some fee
    → boosted ≤ fee
max_fee-covers congestion base price boosted fee e =
    ground (arith, Option-cases (mul256 base (base_fee_multiplier congestion)))

capped-covers : (limit tip fee : ℕ) → tip ≤ fee → (tip ≤ capped limit fee) ↔ (tip ≤ limit)
capped-covers limit tip fee l = (λ h. ground arith, λ h. ground arith)

pair_parts :
    (a b c d : ℕ) → ◌≡◌ {A = Option (ℕ × ℕ)} (some (a, b)) (some (c, d)) → (a ≡ c) × (b ≡ d)
pair_parts a b c d e = ground arith

-- If the base fee of the newest block is known, from the fee history or the cache, and no product
-- overflows, then the maximum fee of a transaction covers its own priority fee exactly if the
-- priority fee is within the limit on gas prices; and the maximum fee is always within that limit.
pub fees_cover_tip :
    (config : GasOptimizerConfig) (cached : CachedGasData) (history : FeeHistory) (base tip fee : ℕ)
    → latest_base_fee history.base_fee_per_gas cached.base_fee ≡ some base
    → fees_of config cached history ≡ some (tip, fee)
    → ((tip ≤ fee) ↔ (tip ≤ config.max_gas_price)) × (fee ≤ config.max_gas_price)
unfolding fees_of
fees_cover_tip config cached history base tip fee known e =
    let c = cached.network_congestion in
    let limit = config.max_gas_price in
    let base? = latest_base_fee history.base_fee_per_gas cached.base_fee in
    let boost = limited_boost c config in
    let finish : ℕ → ℕ → Option (ℕ × ℕ) = λ tip' top. some (tip', capped limit top) in
    let with_tip : ℕ → Option (ℕ × ℕ) =
      λ tip'. max_fee_of c base? cached.gas_price tip' >>= finish tip' in
    let (a, _, e₁) =
      >>=-eq-some (priority_fee_of (priority_fees history.reward) cached.priority_fee)
        (λ a. mul256 a boost >>= λ p. with_tip (p / 100)) e in
    let (p, _, e₂) = >>=-eq-some (mul256 a boost) (λ p. with_tip (p / 100)) e₁ in
    let (top, m, e₃) =
      >>=-eq-some (max_fee_of c base? cached.gas_price (p / 100)) (finish (p / 100)) e₂ in
    let covered =
      max_fee-covers c base cached.gas_price (p / 100) top
        (sym (ap (λ b. max_fee_of c b cached.gas_price (p / 100)) known) ∙ m) in
    let (tip_is, fee_is) = pair_parts (p / 100) (capped limit top) tip fee e₃ in
    let covers = capped-covers limit (p / 100) top covered in
    (
      (λ h. omega (arith, covers.0 (omega arith)), λ h. omega (arith, covers.1 (omega arith))),
      omega (arith, capped-le limit top),
    )
