-- ===== src/Errors/Cleanup.antt =====
-- What a cleanup of the store of errors takes away.
use diamond_bot_v.Base.{
  ℕ, ◌+◌, ◌*◌, ◌%◌, ◌^◌, ◌<◌, ◌≡◌, refl, ap, ◌∙◌, Bool, false, Option, none, some, List, [], ◌∷◌,
  map, if◌then◌else◌, ◌==◌, Dict, lookup, erase, retain, any, arith, Bool-cases, inl, inr, length,
  lookup-erase,
}
use diamond_bot_v.Errors.Store.{
  BlockchainError, BasicErrorHandler, basic, is_old, remove_old, cleanup_old_errors,
}
use diamond_bot_v.Errors.Records.{HasOwnIds, HasOwnIds-once, erase-HasOwnIds}

length-values :
    (d : Dict BlockchainError) → length (map {A = ℕ × BlockchainError} (λ p. p.1) d) ≡ length d
length-values [] = refl
length-values (x ∷ d) = omega (arith, length-values d)

length-old :
    (now max_age : ℕ) (d : Dict BlockchainError)
    → length (retain (is_old now max_age) (map {A = ℕ × BlockchainError} (λ p. p.1) d))
      ≡ length (retain (λ p. is_old now max_age p.1) d)
length-old now max_age [] = refl
length-old now max_age (x ∷ d) = ground (arith, length-old now max_age d)

module _ (now max_age : ℕ) where
  abbrev gone : ℕ → BlockchainError → Bool
  gone k e = if is_old now max_age e then e.error_id == k else false

  abbrev pub kept : Option BlockchainError → Option BlockchainError
  kept none = none
  kept (some e) = if is_old now max_age e then none else some e

  abbrev is_old? : Option BlockchainError → Bool
  is_old? none = false
  is_old? (some e) = is_old now max_age e

  abbrev values : Dict BlockchainError → List BlockchainError
  values = map (λ p. p.1)

  any-gone-values :
      (k : ℕ) (d : Dict BlockchainError)
      → HasOwnIds d
      → any (gone k) (values d) ≡ is_old? (lookup k d)
  any-gone-values k [] h = refl
  any-gone-values k ((id, e) ∷ d) h = ground (arith, any-gone-values k d h.2)

  kept-lem : (o : Option BlockchainError) → (if is_old? o then none else o) ≡ kept o
  kept-lem none = refl
  kept-lem (some e) = refl

  -- What the loop of a cleanup leaves and counts.
  record Cleaned (es : List BlockchainError) (count : ℕ) (h : BasicErrorHandler) : Type 0 where
    removed : ℕ
    after : BasicErrorHandler
    returns : remove_old basic now max_age es count h ≡ some (removed, after)
    counts : removed ≡ count + length (retain (is_old now max_age) es)
    own_ids : HasOwnIds after.errors
    found : (k : ℕ) → lookup k after.errors ≡ (if any (gone k) es then none else lookup k h.errors)

  remove_old-Cleaned :
      (es : List BlockchainError) (count : ℕ) (h : BasicErrorHandler)
      → HasOwnIds h.errors
      → count + length es < 2 ^ 64
      → Cleaned es count h
  unfolding remove_old
  remove_old-Cleaned [] count h own l = record {
    removed = count;
    after = h;
    returns = refl;
    counts = omega arith;
    own_ids = own;
    found = λ k. refl;
  }
  remove_old-Cleaned (e ∷ es) count h own l = elim (Bool-cases (is_old now max_age e)) [
    | inl old ↦
        let once = HasOwnIds-once h.errors own in
        let h' : BasicErrorHandler = record h { errors = erase e.error_id h.errors } in
        let wraps : (count + 1) % 2 ^ 64 ≡ count + 1 = omega arith in
        let r =
          remove_old-Cleaned es (count + 1) h' (erase-HasOwnIds e.error_id h.errors own)
            (omega arith) in
        record {
          removed = r.removed;
          after = r.after;
          returns = rw old (ap (λ c. remove_old basic now max_age es c h') wraps ∙ r.returns);
          counts = rw old (omega (arith, r.counts));
          own_ids = r.own_ids;
          found = λ k. rw old (r.found k ∙ ground (arith, lookup-erase e.error_id k h.errors once));
        }
    | inr young ↦
        let r = remove_old-Cleaned es count h own (omega arith) in
        record {
          removed = r.removed;
          after = r.after;
          returns = rw young r.returns;
          counts = rw young r.counts;
          own_ids = r.own_ids;
          found = λ k. rw young (r.found k);
        }
  ]

-- If every error of the store stands under its own id, and there are fewer than 2 ^ 64, a cleanup
-- succeeds, takes away exactly the errors that are older than the given hours, reckoned in seconds as
-- a `u64` that wraps around (hours * 3600 modulo 2 ^ 64), keeps the others as they are, and counts
-- what it took.
pub cleanup_removes_old :
    (now max_age_hours : ℕ) (h : BasicErrorHandler)
    → HasOwnIds h.errors
    → length h.errors < 2 ^ 64
    → let max_age = max_age_hours * 3_600 % 2 ^ 64 * 10 ^ 9 in
      (n : ℕ) × (h' : BasicErrorHandler) × (cleanup_old_errors basic now max_age_hours h
        ≡ some (n, h'))
      × ((k : ℕ) → lookup k h'.errors ≡ kept now max_age (lookup k h.errors))
      × (n ≡ length (retain (λ p. is_old now max_age p.1) h.errors))
cleanup_removes_old now max_age_hours h own l =
    let max_age = max_age_hours * 3_600 % 2 ^ 64 * 10 ^ 9 in
    let all = map (λ p. p.1) h.errors in
    let r = remove_old-Cleaned now max_age all 0 h own (omega (arith, length-values h.errors)) in
    (
      r.removed,
      r.after,
      r.returns,
      λ k.
          r.found k
          ∙ ap (λ b. if b then none else lookup k h.errors)
              (any-gone-values now max_age k h.errors own)
          ∙ kept-lem now max_age (lookup k h.errors),
      omega (arith, r.counts, length-old now max_age h.errors),
    )
