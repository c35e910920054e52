-- ===== src/Retry/Loop.antt =====
-- What the retry loop returns: the first success within the allowed calls, or the last failure.
use diamond_bot_v.Base.{
  ℕ, zero, suc, ◌+◌, ◌≤◌, ◌<◌, ◌≡◌, ◌⊎◌, refl, inl, inr, true, some, leb, arith, Bool-cases, ltb,
  ap, ◌∙◌,
}
use diamond_bot_v.Retry.{
  RetryPolicy, Outcome, done, failed, count_success, count_failure, Finished, retry_loop, retry,
}

module _ {A E : Type 0} where
  Outcome-cases : (o : Outcome A E) → ((a : A) × (o ≡ done a)) ⊎ ((e : E) × (o ≡ failed e))
  Outcome-cases (done a) = inl (a, refl)
  Outcome-cases (failed e) = inr (e, refl)

  -- Call number `n` is the last one: it succeeds, or it is one more than the retries and fails.
  abbrev pub Ends : (ℕ → Outcome A E) → RetryPolicy → ℕ → Finished A E → Type 0
  Ends f p n r =
      (r.calls ≡ n + 1)
      × (n ≤ p.config.max_retries)
      × (r.result ≡ f n)
      × (((a : A) × (f n ≡ done a) × (r.metrics ≡ count_success n p.metrics))
          ⊎ ((e : E) × (f n ≡ failed e)
              × (n ≡ p.config.max_retries)
              × (r.metrics ≡ count_failure n p.metrics)))

  abbrev pub Failed : Outcome A E → Type 0
  Failed o = (e : E) × (o ≡ failed e)

  all_failed_so_far :
      (k : ℕ) (f : ℕ → Outcome A E) (x : E)
      → f k ≡ failed x
      → ((i : ℕ) → i < k → Failed (f i))
      → (i : ℕ) → i < k + 1
      → Failed (f i)
  all_failed_so_far k f x e before i lt = elim (Bool-cases (ltb i k)) [
    | inl earlier ↦ before i (ground arith)
    | inr this ↦ let same : i ≡ k = ground arith in (x, ap f same ∙ e)
  ]

  loop-Ends :
      (fuel retries : ℕ) (f : ℕ → Outcome A E) (p : RetryPolicy)
      → fuel + retries ≡ p.config.max_retries + 1
      → retries ≤ p.config.max_retries
      → ((i : ℕ) → i < retries → Failed (f i))
      → (n : ℕ) × (r : Finished A E) × (retry_loop fuel p.config.max_retries retries f p.metrics
          ≡ some r)
        × Ends f p n r
        × ((i : ℕ) → i < n → Failed (f i))
  unfolding retry_loop
  loop-Ends zero retries f p h le before = absurd (omega arith)
  loop-Ends (suc fuel) retries f p h le before = elim (Outcome-cases (f retries)) [
    | inl (a, e) ↦ (
      retries,
      record { result = done a; calls = retries + 1; metrics = count_success retries p.metrics },
      ground arith,
      (refl, le, ground arith, inl (a, e, refl)),
      before,
    )
    | inr (x, e) ↦ elim (Bool-cases (leb p.config.max_retries retries)) [
      | inl last ↦ (
        retries,
        record {
          result = failed x;
          calls = retries + 1;
          metrics = count_failure retries p.metrics;
        },
        ground arith,
        (refl, le, ground arith, inr (x, e, ground arith, refl)),
        before,
      )
      | inr more ↦
          let (n, r, run, ends, all) : (n : ℕ) × (r : Finished A E) × (retry_loop fuel
                  p.config.max_retries (retries + 1) f p.metrics
                ≡ some r)
              × Ends f p n r
              × ((i : ℕ) → i < n → Failed (f i)) =
            loop-Ends fuel (retries + 1) f p (omega arith) (ground arith)
              (all_failed_so_far retries f x e before) in
          (n, r, ground arith, ends, all)
    ]
  ]

  -- An enabled policy always returns. All calls before the last one failed; the last one succeeded, or
  -- failed as the first call and as many retries as allowed; the result is the last call's, and the
  -- counters have grown by the retries and by one success or one failure.
  pub retry-Ends :
      (f : ℕ → Outcome A E) (p : RetryPolicy)
      → p.config.enabled ≡ true
      → (n : ℕ) × (r : Finished A E) × (retry f p ≡ some r)
        × Ends f p n r
        × ((i : ℕ) → i < n → Failed (f i))
  unfolding retry
  retry-Ends f p on =
      let (n, r, run, ends, all) =
        loop-Ends (p.config.max_retries + 1) 0 f p (omega arith) (omega arith)
          (λ i lt. absurd (omega arith)) in
      (n, r, ground arith, ends, all)
