-- ===== src/Base/Lists.antt =====
-- Lists over the native numbers: length, membership tests and filters, as `Vec` has them.
use Prim.Native.Nat.{ℕ, suc, ◌+◌}
use mathlib.Core.Path.{◌≡◌, refl}
use mathlib.Core.Bool.{not, Bool, true, false}
use mathlib.Core.List.{List, [], ◌∷◌}
use native.Mathlib.Omega.{arith}
use diamond_bot_v.Base.Compare.{◌==◌, if◌then◌else◌}

module _ {ℓ} {A : Type ℓ} where
  abbrev pub length : List A → ℕ
  length [] = 0
  length (x ∷ xs) = suc (length xs)

  -- `v.push(x)`
  abbrev pub push : List A → A → List A
  push [] a = a ∷ []
  push (x ∷ xs) a = x ∷ push xs a

  -- `v.retain(p)`, and `iter().filter(p)`
  abbrev pub retain : (A → Bool) → List A → List A
  retain p [] = []
  retain p (x ∷ xs) = let rest = retain p xs in if p x then x ∷ rest else rest

  -- `iter().any(p)`
  abbrev pub any : (A → Bool) → List A → Bool
  any p [] = false
  any p (x ∷ xs) = if p x then true else any p xs

  pub length-push : (xs : List A) (a : A) → length (push xs a) ≡ length xs + 1
  length-push [] a = omega arith
  length-push (x ∷ xs) a = omega (arith, length-push xs a)

  pub any-push-true : (p : A → Bool) (xs : List A) (a : A) → p a ≡ true → any p (push xs a) ≡ true
  any-push-true p [] a h = ground arith
  any-push-true p (x ∷ xs) a h = ground (arith, any-push-true p xs a h)

  pub any-push_old :
      (p : A → Bool) (xs : List A) (a : A) → any p xs ≡ true → any p (push xs a) ≡ true
  any-push_old p [] a h = ground arith
  any-push_old p (x ∷ xs) a h = ground (arith, any-push_old p xs a)

  pub any-push-false :
      (p : A → Bool) (xs : List A) (a : A)
      → any p xs ≡ false
      → p a ≡ false
      → any p (push xs a) ≡ false
  any-push-false p [] a h k = ground arith
  any-push-false p (x ∷ xs) a h k = ground (arith, any-push-false p xs a)

-- `v.contains(&a)`
abbrev pub contains : List ℕ → ℕ → Bool
contains xs a = any (λ x. x == a) xs

-- Each number stands once in the list.
abbrev pub IsUnique : List ℕ → Type 0
IsUnique [] = Unit {0}
IsUnique (x ∷ xs) = (contains xs x ≡ false) × IsUnique xs

-- `v.retain(|x| x != a)`
abbrev pub without : ℕ → List ℕ → List ℕ
without a xs = retain (λ x. not (x == a)) xs

pub contains-push :
    (xs : List ℕ) (a k : ℕ) → contains (push xs a) k ≡ (if a == k then true else contains xs k)
contains-push [] a k = refl
contains-push (x ∷ xs) a k = ground (arith, contains-push xs a k)

pub contains-without :
    (xs : List ℕ) (a k : ℕ) → contains (without a xs) k ≡ (if a == k then false else contains xs k)
contains-without [] a k = ground arith
contains-without (x ∷ xs) a k = ground (arith, contains-without xs a k)

pub push-IsUnique :
    (xs : List ℕ) (a : ℕ) → IsUnique xs → contains xs a ≡ false → IsUnique (push xs a)
push-IsUnique [] a u h = (refl, tt)
push-IsUnique (x ∷ xs) a u h = ground (arith, push-IsUnique xs a u.1, contains-push xs a x)

pub without-IsUnique : (xs : List ℕ) (a : ℕ) → IsUnique xs → IsUnique (without a xs)
without-IsUnique [] a u = tt
without-IsUnique (x ∷ xs) a u = ground (arith, without-IsUnique xs a u.1, contains-without xs a x)

pub length-without :
    (xs : List ℕ) (a : ℕ)
    → IsUnique xs
    → length (without a xs) + (if contains xs a then 1 else 0) ≡ length xs
length-without [] a u = omega arith
length-without (x ∷ xs) a u = ground (arith, length-without xs a u.1)
