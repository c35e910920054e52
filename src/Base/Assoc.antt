-- ===== src/Base/Assoc.antt =====
-- Maps from numbers, as association lists without repeated keys: `HashMap`, and the contracts'
-- storage maps. Identifiers are only compared, so they are numbers.
use Prim.Native.Nat.{ℕ}
use mathlib.Core.Path.{◌≡◌, refl}
use mathlib.Core.Logic.{◌≢◌}
use mathlib.Core.Option.{Option, none, some}
use mathlib.Core.List.{List, [], ◌∷◌}
use native.Mathlib.Omega.{arith}
use mathlib.Core.Bool.{Bool, true, false}
use mathlib.Core.Logic.{inl, inr}
use diamond_bot_v.Base.Compare.{Bool-cases, ◌==◌, if◌then◌else◌}

abbrev pub Dict {ℓ} : Type ℓ → Type ℓ
Dict V = List (ℕ × V)

module _ {ℓ} {V : Type ℓ} where
  abbrev pub lookup : ℕ → Dict V → Option V
  lookup k [] = none
  lookup k ((j, v) ∷ d) = if j == k then some v else lookup k d

  abbrev pub erase : ℕ → Dict V → Dict V
  erase k [] = []
  erase k ((j, w) ∷ d) = let rest = erase k d in if j == k then d else (j, w) ∷ rest

  abbrev pub insert : ℕ → V → Dict V → Dict V
  insert k v [] = (k, v) ∷ []
  insert k v ((j, w) ∷ d) = let rest = insert k v d in if j == k then (k, v) ∷ d else (j, w) ∷ rest

  pub lookup-insert :
      (k j : ℕ) (v : V) (d : Dict V)
      → lookup j (insert k v d) ≡ (if k == j then some v else lookup j d)
  lookup-insert k j v [] = refl
  lookup-insert k j v ((i, w) ∷ d) = ground (arith, lookup-insert k j v d)

  pub lookup-insert_self : (k : ℕ) (v : V) (d : Dict V) → lookup k (insert k v d) ≡ some v
  lookup-insert_self k v d = ground (arith, lookup-insert k k v d)

  pub lookup-insert_ne :
      (k j : ℕ) (v : V) (d : Dict V) → k ≢ j → lookup j (insert k v d) ≡ lookup j d
  lookup-insert_ne k j v d h = ground (arith, lookup-insert k j v d)

  pub lookup-erase_ne : (k j : ℕ) (d : Dict V) → k ≢ j → lookup j (erase k d) ≡ lookup j d
  lookup-erase_ne k j [] h = refl
  lookup-erase_ne k j ((i, w) ∷ d) h = ground (arith, lookup-erase_ne k j d h)

module _ {V : Type 0} where
  -- No key is listed twice.
  abbrev pub HasDistinctKeys : Dict V → Type 0
  HasDistinctKeys [] = Unit {0}
  HasDistinctKeys ((k, v) ∷ d) = (lookup k d ≡ none) × HasDistinctKeys d

  pub lookup-erase_self : (k : ℕ) (d : Dict V) → HasDistinctKeys d → lookup k (erase k d) ≡ none
  lookup-erase_self k [] h = refl
  lookup-erase_self k ((i, w) ∷ d) h = ground (arith, lookup-erase_self k d h.1)

  pub insert-HasDistinctKeys :
      (k : ℕ) (v : V) (d : Dict V) → HasDistinctKeys d → HasDistinctKeys (insert k v d)
  insert-HasDistinctKeys k v [] h = (refl, tt)
  insert-HasDistinctKeys k v ((i, w) ∷ d) h =
      ground (arith, insert-HasDistinctKeys k v d h.1, lookup-insert k i v d)

  pub erase-HasDistinctKeys : (k : ℕ) (d : Dict V) → HasDistinctKeys d → HasDistinctKeys (erase k d)
  erase-HasDistinctKeys k [] h = tt
  erase-HasDistinctKeys k ((i, w) ∷ d) h =
      ground (arith, erase-HasDistinctKeys k d h.1, lookup-erase_ne k i d)

abbrev pub is_some {ℓ} : {A : Type ℓ} → Option A → Bool
is_some none = false
is_some (some a) = true

module _ {V : Type 0} where
  pub lookup-erase :
      (k j : ℕ) (d : Dict V)
      → HasDistinctKeys d
      → lookup j (erase k d) ≡ (if k == j then none else lookup j d)
  lookup-erase k j d h = elim (Bool-cases (k == j)) [
    | inl e ↦ ground (arith, lookup-erase_self k d h)
    | inr e ↦ ground (arith, lookup-erase_ne k j d)
  ]
