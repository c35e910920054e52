-- ===== src/Rpc/Fastest.antt =====
-- What `get_best_url` chooses.
use diamond_bot_v.Base.{
  ℕ, ◌-◌, ◌*◌, ◌^◌, ◌≤◌, ◌<◌, ◌≡◌, ◌⊎◌, refl, ap, ◌∙◌, Bool, true, false, Option, none, some, List,
  [], ◌∷◌, map, arith, Bool-cases, inl, inr, leb, if◌then◌else◌, contains,
}
use diamond_bot_v.Rpc.Pool.{
  Checked, RpcPool, precedes, insert_sorted, sorted, probed, check_rpc_availability,
  first_available, first_url, url_or_first, all_urls, get_best_url, rechecked, check_availability,
}

first_ready : List Checked → Option Checked
first_ready [] = none
first_ready (c ∷ cs) = let rest = first_ready cs in if c.is_available then some c else rest

abbrev url_of : Option Checked → Option ℕ
url_of none = none
url_of (some c) = some c.url

first_available-first_ready : (cs : List Checked) → first_available cs ≡ url_of (first_ready cs)
unfolding first_available first_ready
first_available-first_ready [] = refl
first_available-first_ready (c ∷ cs) = ground (arith, first_available-first_ready cs)

-- None is ready behind one that is not.
abbrev IsParted : List Checked → Type 0
IsParted [] = Unit {0}
IsParted (c ∷ cs) = (c.is_available ≡ false → first_ready cs ≡ none) × IsParted cs

abbrev better : Checked → Option Checked → Option Checked
better c none = some c
better c (some d) = if leb c.latency d.latency then some c else some d

abbrev in_order : Checked → Checked → Bool
in_order c d = precedes c.is_available d.is_available c.latency d.latency

insert_sorted-unready :
    (c : Checked) (cs : List Checked)
    → c.is_available ≡ false
    → first_ready (insert_sorted c cs) ≡ first_ready cs
unfolding first_ready insert_sorted
insert_sorted-unready c [] u = ground arith
insert_sorted-unready c (d ∷ ds) u = ground (arith, insert_sorted-unready c ds u)

insert_sorted-ready :
    (c : Checked) (cs : List Checked)
    → c.is_available ≡ true
    → IsParted cs
    → first_ready (insert_sorted c cs) ≡ better c (first_ready cs)
unfolding first_ready insert_sorted
insert_sorted-ready c [] r p = ground arith
insert_sorted-ready c (d ∷ ds) r p = elim (Bool-cases d.is_available) [
  | inl a ↦ ground (arith, a)
  | inr a ↦ ground (arith, a, p.0 a)
]

in_order-unready :
    (c d : Checked) → in_order c d ≡ true → c.is_available ≡ false → d.is_available ≡ false
in_order-unready c d o u = ground arith

out_of_order-unready :
    (c d : Checked) → in_order c d ≡ false → d.is_available ≡ false → c.is_available ≡ false
out_of_order-unready c d o u = ground arith

insert_sorted-IsParted :
    (c : Checked) (cs : List Checked) → IsParted cs → IsParted (insert_sorted c cs)
unfolding first_ready insert_sorted
insert_sorted-IsParted c [] p = (λ h. refl, tt)
insert_sorted-IsParted c (d ∷ ds) p = elim (Bool-cases (in_order c d)) [
  | inl o ↦ rw o (λ h. ground (arith, in_order-unready c d o h, p.0 (in_order-unready c d o h)), p)
  | inr o ↦ rw o (
    λ h. insert_sorted-unready c ds (out_of_order-unready c d o h) ∙ p.0 h,
    insert_sorted-IsParted c ds p.1,
  )
]

sorted-IsParted : (cs : List Checked) → IsParted (sorted cs)
unfolding sorted
sorted-IsParted [] = tt
sorted-IsParted (c ∷ cs) = insert_sorted-IsParted c (sorted cs) (sorted-IsParted cs)

module _ (probe : ℕ → Bool × ℕ) where
  -- No URL that answers is faster than `u`.
  abbrev pub AllSlower : ℕ → List ℕ → Type 0
  AllSlower u [] = Unit {0}
  AllSlower u (v ∷ vs) = ((probe v).0 ≡ true → (probe u).1 ≤ (probe v).1) × AllSlower u vs

  abbrev pub NoneAnswers : List ℕ → Type 0
  NoneAnswers [] = Unit {0}
  NoneAnswers (v ∷ vs) = ((probe v).0 ≡ false) × NoneAnswers vs

  AllSlower-trans :
      (u v : ℕ) (vs : List ℕ) → (probe u).1 ≤ (probe v).1 → AllSlower v vs → AllSlower u vs
  AllSlower-trans u v [] l a = tt
  AllSlower-trans u v (w ∷ ws) l a = (λ h. omega (arith, a.0 h), AllSlower-trans u v ws l a.1)

  AllSlower-unready : (u : ℕ) (vs : List ℕ) → NoneAnswers vs → AllSlower u vs
  AllSlower-unready u [] n = tt
  AllSlower-unready u (v ∷ vs) n = (λ h. cc, AllSlower-unready u vs n.1)

  -- `u` is one of the URLs, answers, and is no slower than any other that answers.
  pub record IsFastest (u : ℕ) (urls : List ℕ) : Type 0 where
    pub listed : contains urls u ≡ true
    pub answers : (probe u).0 ≡ true
    pub fastest : AllSlower u urls

  better-probed :
      (v u : ℕ) (vs : List ℕ)
      → (probe v).0 ≡ true
      → IsFastest u vs
      → (w : ℕ) × (better (probed probe v) (some (probed probe u)) ≡ some (probed probe w))
        × IsFastest w (v ∷ vs)
  better-probed v u vs r f = elim (Bool-cases (leb (probe v).1 (probe u).1)) [
    | inl l ↦
        let le : (probe v).1 ≤ (probe u).1 = ground (arith, l) in
        (
          v,
          rw l,
          record {
            listed = ground arith;
            answers = r;
            fastest = (λ h. omega arith, AllSlower-trans v u vs le f.fastest);
          },
        )
    | inr l ↦
        let le : (probe u).1 ≤ (probe v).1 = ground (arith, l) in
        (
          u,
          rw l,
          record {
            listed = ground (arith, f.listed);
            answers = f.answers;
            fastest = (λ h. le, f.fastest);
          },
        )
  ]

  first_ready-checked :
      (urls : List ℕ)
      → ((u : ℕ) × (first_ready (check_rpc_availability probe urls) ≡ some (probed probe u))
          × IsFastest u urls)
        ⊎ ((first_ready (check_rpc_availability probe urls) ≡ none) × NoneAnswers urls)
  unfolding sorted first_ready
  first_ready-checked [] = inr (refl, tt)
  first_ready-checked (v ∷ vs) =
      let c = probed probe v in
      let rest = check_rpc_availability probe vs in
      let parted = sorted-IsParted (map (probed probe) vs) in
      elim (Bool-cases (probe v).0) [
        | inl r ↦
            let e = insert_sorted-ready c rest r parted in
            elim (first_ready-checked vs) [
              | inl (u, i, f) ↦
                  let (w, j, g) = better-probed v u vs r f in inl (w, e ∙ ap (better c) i ∙ j, g)
              | inr (i, n) ↦ inl (
                v,
                e ∙ ap (better c) i,
                record {
                  listed = ground arith;
                  answers = r;
                  fastest = (λ h. omega arith, AllSlower-unready v vs n);
                },
              )
            ]
        | inr r ↦
            let e = insert_sorted-unready c rest r in
            elim (first_ready-checked vs) [
              | inl (u, i, f) ↦ inl (
                u,
                e ∙ i,
                record {
                  listed = ground (arith, f.listed);
                  answers = f.answers;
                  fastest = (λ h. cc, f.fastest);
                },
              )
              | inr (i, n) ↦ inr (e ∙ i, (r, n))
            ]
      ]

  -- If the last check is more than ten minutes old, `get_best_url` gives a URL of the pool that answers
  -- its probe, and no URL that answers is faster; if none answers, it gives the first URL of the pool,
  -- and an error if the pool has none.
  pub get_best_url-IsFastest :
      (now now' : ℕ) (p : RpcPool)
      → 600 * 10 ^ 9 < now - p.last_checked
      → ((u : ℕ) × ((get_best_url now now' probe p).0 ≡ some u) × IsFastest u (all_urls p))
        ⊎ (((get_best_url now now' probe p).0 ≡ first_url p.urls) × NoneAnswers (all_urls p))
  get_best_url-IsFastest now now' p old =
      let p' = check_availability now' probe p in
      let e : rechecked now now' probe p ≡ p' = ground arith in
      let first = first_available-first_ready p'.availability in
      elim (first_ready-checked (all_urls p)) [
        | inl (u, i, f) ↦ inl (
          u,
          ap (λ r. url_or_first (first_available r.availability) r) e
              ∙ ap (λ o. url_or_first o p') (first ∙ ap url_of i),
          f,
        )
        | inr (i, n) ↦ inr (
          ap (λ r. url_or_first (first_available r.availability) r) e
              ∙ ap (λ o. url_or_first o p') (first ∙ ap url_of i),
          n,
        )
      ]
