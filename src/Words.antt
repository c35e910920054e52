-- ===== src/Words.antt =====
-- Machine words of the services: `U256` of ethers, whose `+` and `*` panic where the result does not
-- fit, and `u64` as a release build has it. `none` is a panic.
use diamond_bot_v.Base.{
  ℕ, ◌+◌, ◌-◌, ◌*◌, ◌%◌, ◌^◌, ◌≤◌, ◌<◌, ◌≡◌, refl, Option, none, some, List, [], ◌∷◌, ltb,
  if◌then◌else◌, arith,
}

infixl 5 ◌>>=◌
abbrev pub ◌>>=◌ {ℓ κ} : {S : Type ℓ} {T : Type κ} → Option S → (S → Option T) → Option T
none >>= next = none
some s >>= next = next s

abbrev pub fit256 : ℕ → Option ℕ
fit256 n = if ltb n (2 ^ 256) then some n else none

abbrev pub add256 : ℕ → ℕ → Option ℕ
add256 a b = fit256 (a + b)

abbrev pub mul256 : ℕ → ℕ → Option ℕ
mul256 a b = fit256 (a * b)

-- `fold(U256::zero(), |acc, x| acc + x)`
unfoldable pub sum256 : ℕ → List ℕ → Option ℕ
sum256 acc [] = some acc
sum256 acc (x ∷ xs) = do s ← add256 acc x; sum256 s xs

-- `a - b` on `u64`.
abbrev pub sub64 : ℕ → ℕ → ℕ
sub64 a b = (a + 2 ^ 64 - b) % 2 ^ 64

pub sub64-of-le : (a b : ℕ) → b ≤ a → a < 2 ^ 64 → sub64 a b ≡ a - b
sub64-of-le a b h k = omega arith

-- What a chain of steps that does not panic has passed through.
pub >>=-eq-some {ℓ κ} :
    {S : Type ℓ} {T : Type κ} (first : Option S) (next : S → Option T) {end : T}
    → (first >>= next) ≡ some end
    → (s : S) × (first ≡ some s) × (next s ≡ some end)
>>=-eq-some none next e = cc
>>=-eq-some (some s) next e = (s, refl, e)
