-- ===== src/Lru/Resize.antt =====
-- What a change of the capacity keeps.
use diamond_bot_v.Base.{
  ℕ, suc, zero, ◌≡◌, ◌≢◌, refl, sym, ap, subst, ◌∙◌, false, Option, none, some, List, [], ◌∷◌,
  arith, ◌==◌, if◌then◌else◌, Dict, lookup, HasDistinctKeys,
}
use diamond_bot_v.Lru.{
  LruCrate, take, others, CacheConfig, BoundedCache, put_all, resized, new_entries, update_config,
  capacity_or,
}

abbrev pub onto : {A : Type 0} → List A → List A → List A
onto [] acc = acc
onto (x ∷ xs) acc = onto xs (x ∷ acc)

module _ {A : Type 0} where
  take-take_longer : (n : ℕ) (xs : List A) → take n (take (suc n) xs) ≡ take n xs
  take-take_longer n [] = refl
  take-take_longer zero (x ∷ xs) = refl
  take-take_longer (suc n) (x ∷ xs) = ap (λ ys. x ∷ ys) (take-take_longer n xs)

  take-twice : (n : ℕ) (xs : List A) → take n (take n xs) ≡ take n xs
  take-twice n [] = refl
  take-twice zero (x ∷ xs) = refl
  take-twice (suc n) (x ∷ xs) = ap (λ ys. x ∷ ys) (take-twice n xs)

  take-cons : (n : ℕ) (x : A) (xs : List A) → take n (x ∷ take n xs) ≡ take n (x ∷ xs)
  take-cons zero x xs = refl
  take-cons (suc n) x xs = ap (λ ys. x ∷ ys) (take-take_longer n xs)

  take-onto : (n : ℕ) (xs acc : List A) → take n (onto xs (take n acc)) ≡ take n (onto xs acc)
  take-onto n [] acc = take-twice n acc
  take-onto n (x ∷ xs) acc =
      sym (take-onto n xs (x ∷ take n acc))
      ∙ ap (λ ys. take n (onto xs ys)) (take-cons n x acc)
      ∙ take-onto n xs (x ∷ acc)

module _ {D : Type 0} where
  others-same : (k : ℕ) (d : Dict D) → lookup k d ≡ none → others k d ≡ d
  others-same k [] h = refl
  others-same k ((j, v) ∷ d) h = ground (arith, others-same k d)

  pub lookup-take : (n k : ℕ) (d : Dict D) → lookup k d ≡ none → lookup k (take n d) ≡ none
  lookup-take n k [] h = refl
  lookup-take zero k ((j, v) ∷ d) h = refl
  lookup-take (suc n) k ((j, v) ∷ d) h = ground (arith, lookup-take n k d)

  -- None of the keys of the first is in the second.
  abbrev AreFresh : Dict D → Dict D → Type 0
  AreFresh [] d = Unit {0}
  AreFresh ((k, v) ∷ xs) d = (lookup k d ≡ none) × AreFresh xs d

  AreFresh-take :
      (n k : ℕ) (v : D) (xs d : Dict D)
      → lookup k xs ≡ none
      → AreFresh xs d
      → AreFresh xs (take n ((k, v) ∷ d))
  AreFresh-take n k v [] d h f = tt
  AreFresh-take n k v ((j, w) ∷ xs) d h (g, f) =
      (lookup-take n j ((k, v) ∷ d) (ground arith), AreFresh-take n k v xs d (ground arith) f)

  AreFresh-nil : (xs : Dict D) → AreFresh xs []
  AreFresh-nil [] = tt
  AreFresh-nil ((k, v) ∷ xs) = (refl, AreFresh-nil xs)

module _ {D : Type 0} (crate : LruCrate D) where
  open crate use {
    LruCache, iter, cap, empty, put, iter-put, cap-put, iter-empty, cap-empty, iter-HasDistinctKeys,
  }

  put_all-iter :
      (n : ℕ) (xs : Dict D) (l : LruCache)
      → HasDistinctKeys xs
      → AreFresh xs (iter l)
      → cap l ≡ n
      → iter l ≡ take n (iter l)
      → iter (put_all crate xs l) ≡ take n (onto xs (iter l))
  put_all-iter n [] l u f c t = t
  put_all-iter n ((k, v) ∷ xs) l (h, u) (g, f) c t =
      let is : iter (put k v l) ≡ take n ((k, v) ∷ iter l) =
        iter-put k v l
        ∙ ap (λ m. take m ((k, v) ∷ others k (iter l))) c
        ∙ ap (λ d. take n ((k, v) ∷ d)) (others-same k (iter l) g) in
      put_all-iter n xs (put k v l) u
        (subst (AreFresh xs) (sym is) (AreFresh-take n k v xs (iter l) h f)) (cap-put k v l ∙ c)
        (is ∙ sym (take-twice n ((k, v) ∷ iter l)) ∙ ap (take n) (sym is))
      ∙ ap (λ d. take n (onto xs d)) is
      ∙ take-onto n xs ((k, v) ∷ iter l)

  resized-iter :
      (n : ℕ) (l l' : LruCache) → resized crate n l ≡ some l' → iter l' ≡ take n (onto (iter l) [])
  resized-iter zero l l' h = absurd (ground arith)
  resized-iter (suc n) l l' h =
      let is : put_all crate (iter l) (empty (suc n)) ≡ l' = ground arith in
      let none_yet = iter-empty (suc n) in
      ap iter (sym is)
      ∙ put_all-iter (suc n) (iter l) (empty (suc n)) (iter-HasDistinctKeys l)
          (subst (AreFresh (iter l)) (sym none_yet) (AreFresh-nil (iter l))) (cap-empty (suc n))
          (none_yet ∙ ap (take (suc n)) (sym none_yet))
      ∙ ap (λ d. take (suc n) (onto (iter l) d)) none_yet

  new_entries-resized :
      (n : ℕ) (o current : Option ℕ) (l : LruCache)
      → o ≡ some n
      → n ≢ capacity_or 0 current
      → new_entries crate o current l ≡ resized crate n l
  new_entries-resized n none current l e ne = absurd (ground arith)
  new_entries-resized n (some m) current l e ne =
      let same : m ≡ n = ground arith in
      let differs : (m == capacity_or 0 current) ≡ false = ground arith in
      ap (λ b. if b then some l else resized crate m l) differs ∙ ap (λ k. resized crate k l) same

  configured-entries :
      (config : CacheConfig) (o : Option LruCache) (c' : BoundedCache crate)
      → elim o [ none ↦ none | some entries ↦ some (record { config = config; entries = entries }) ]
        ≡ some c'
      → o ≡ some c'.entries
  configured-entries config none c' h = absurd (ground arith)
  configured-entries config (some l) c' h = ground arith

  -- A change of the capacity turns the order of use around: what the cache then lists, from the entry
  -- used last on, is the old list backwards, cut off at the new capacity. So a smaller cache keeps the
  -- entries that were used longest ago, and drops those used last.
  pub update_config_reverses :
      (n : ℕ) (config : CacheConfig) (c c' : BoundedCache crate)
      → config.capacity ≡ some n
      → n ≢ capacity_or 0 c.config.capacity
      → update_config crate config c ≡ some c'
      → iter c'.entries ≡ take n (onto (iter c.entries) [])
  update_config_reverses n config c c' e ne h = resized-iter n c.entries c'.entries (
      sym (new_entries-resized n config.capacity c.config.capacity c.entries e ne)
      ∙ configured-entries config (new_entries crate config.capacity c.config.capacity c.entries) c'
          h)
