-- ===== src/Redis/Sample.antt =====
-- A Redis server in which every command succeeds, for the examples.
use diamond_bot_v.Base.{
  ℕ, ◌≡◌, ◌≢◌, ◌≤◌, ◌⊎◌, refl, sym, ap, ◌∙◌, inl, inr, ◌∷◌, [], Option, none, some, arith, ltb,
  ◌==◌, if◌then◌else◌, Dict, lookup, insert, lookup-insert, Bool-cases,
}
use diamond_bot_v.Redis.{Reply, done, Redis}

pub record SampleStore (V : Type 0) : Type 0 where
  pub scores : ℕ → Dict ℕ
  pub values : ℕ → Option V

abbrev wipe : ℕ → Dict ℕ → Dict ℕ
wipe k [] = []
wipe k ((i, n) ∷ d) = let rest = wipe k d in if i == k then rest else (i, n) ∷ rest

lookup-wipe : (k j : ℕ) (d : Dict ℕ) → lookup j (wipe k d) ≡ (if k == j then none else lookup j d)
lookup-wipe k j [] = ground arith
lookup-wipe k j ((i, n) ∷ d) = ground (arith, lookup-wipe k j d)

-- The better of a candidate and the best so far.
abbrev better : ℕ → Option ℕ → Option (ℕ × ℕ) → Option (ℕ × ℕ)
better m none best = best
better m (some n) none = some (m, n)
better m (some n) (some (m', n')) = if ltb n n' then some (m', n') else some (m, n)

abbrev pub best_of : Dict ℕ → Dict ℕ → Option (ℕ × ℕ)
best_of d [] = none
best_of d ((m, x) ∷ ms) = let rest = best_of d ms in better m (lookup m d) rest

better-lookup :
    (d : Dict ℕ) (i m n : ℕ) (o : Option ℕ) (b : Option (ℕ × ℕ))
    → lookup i d ≡ o
    → (b ≡ some (m, n) → lookup m d ≡ some n)
    → better i o b ≡ some (m, n)
    → lookup m d ≡ some n
better-lookup d i m n none b e ih h = ih h
better-lookup d i m n (some p) none e ih h = ground arith
better-lookup d i m n (some p) (some (m', n')) e ih h = ground (arith, ih)

pub best_of-lookup : (d ms : Dict ℕ) (m n : ℕ) → best_of d ms ≡ some (m, n) → lookup m d ≡ some n
unfolding best_of
best_of-lookup d [] m n h = absurd (ground arith)
best_of-lookup d ((i, x) ∷ ms) m n h =
    better-lookup d i m n (lookup i d) (best_of d ms) refl (best_of-lookup d ms m n) h

-- A best one, no worse than `p`.
abbrev IsAtLeast : ℕ → Option (ℕ × ℕ) → Type 0
IsAtLeast p none = ⊥
IsAtLeast p (some (m, n)) = p ≤ n

better-IsAtLeast_old :
    (i p : ℕ) (o : Option ℕ) (b : Option (ℕ × ℕ)) → IsAtLeast p b → IsAtLeast p (better i o b)
better-IsAtLeast_old i p none b h = h
better-IsAtLeast_old i p (some q) none h = absurd h
better-IsAtLeast_old i p (some q) (some (m, n)) h = ground arith

better-IsAtLeast_new :
    (i p : ℕ) (o : Option ℕ) (b : Option (ℕ × ℕ)) → o ≡ some p → IsAtLeast p (better i o b)
better-IsAtLeast_new i p none b h = absurd (ground arith)
better-IsAtLeast_new i p (some q) none h = ground arith
better-IsAtLeast_new i p (some q) (some (m, n)) h = ground arith

pub best_of-IsAtLeast :
    (d ms : Dict ℕ) (j p q : ℕ)
    → lookup j ms ≡ some q
    → lookup j d ≡ some p
    → IsAtLeast p (best_of d ms)
unfolding best_of
best_of-IsAtLeast d [] j p q k l = absurd (ground arith)
best_of-IsAtLeast d ((i, x) ∷ ms) j p q k l = elim (Bool-cases (i == j)) [
  | inl e ↦ better-IsAtLeast_new i p (lookup i d) (best_of d ms) (ground arith)
  | inr e ↦
      better-IsAtLeast_old i p (lookup i d) (best_of d ms)
        (best_of-IsAtLeast d ms j p q (ground arith) l)
]

pub IsAtLeast-le : (p m n : ℕ) (b : Option (ℕ × ℕ)) → IsAtLeast p b → b ≡ some (m, n) → p ≤ n
IsAtLeast-le p m n none h e = absurd h
IsAtLeast-le p m n (some (i, k)) h e = ground arith

module _ {V : Type 0} where
  abbrev with_scores : ℕ → Dict ℕ → SampleStore V → SampleStore V
  with_scores key d s = record s { scores = λ k. if k == key then d else s.scores k }

  abbrev with_value : ℕ → Option V → SampleStore V → SampleStore V
  with_value id o s = record s { values = λ i. if i == id then o else s.values i }

  abbrev score_in : ℕ → ℕ → SampleStore V → Option ℕ
  score_in k m s = lookup m (s.scores k)

  abbrev pub popped : ℕ → SampleStore V → Option (ℕ × ℕ) → Reply (Option (ℕ × ℕ)) × SampleStore V
  popped key s none = (done none, s)
  popped key s (some (m, n)) = (done (some (m, n)), with_scores key (wipe m (s.scores key)) s)

  score_in-wiped :
      (key i k m : ℕ) (s : SampleStore V)
      → score_in k m (with_scores key (wipe i (s.scores key)) s)
        ≡ (if k == key then (if i == m then none else score_in k m s) else score_in k m s)
  score_in-wiped key i k m s = elim (Bool-cases (k == key)) [
    | inl e ↦ ground (arith, lookup-wipe i m (s.scores key))
    | inr e ↦ ground arith
  ]

  pub popped-score :
      (key member n k m : ℕ) (s s' : SampleStore V) (b : Option (ℕ × ℕ))
      → (b ≡ some (member, n) → score_in key member s ≡ some n)
      → popped key s b ≡ (done (some (member, n)), s')
      → ((k ≡ key) × (m ≡ member) × (score_in k m s ≡ some n) × (score_in k m s' ≡ none))
        ⊎ (((k ≢ key) ⊎ (m ≢ member)) × (score_in k m s' ≡ score_in k m s))
  unfolding popped
  popped-score key member n k m s s' none f h = absurd (ground arith)
  popped-score key member n k m s s' (some (i, x)) f h =
      let same : i ≡ member = ground arith in
      let same_score : x ≡ n = ground arith in
      let after = sym (ap (λ y. score_in k m y.1) h) ∙ score_in-wiped key i k m s in
      elim (Bool-cases (k == key)) [
        | inl e ↦ elim (Bool-cases (i == m)) [
          | inl q ↦ inl (ground arith, ground arith, ground (arith, f), ground (arith, after))
          | inr q ↦ inr (inr (ground arith), ground (arith, after))
        ]
        | inr e ↦ inr (inl (ground arith), ground (arith, after))
      ]

  pub popped-value :
      (key : ℕ) (s s' : SampleStore V) (o b : Option (ℕ × ℕ))
      → popped key s b ≡ (done o, s')
      → s'.values ≡ s.values
  unfolding popped
  popped-value key s s' o none h = sym (ap (λ y. y.1.values) h)
  popped-value key s s' o (some (m, n)) h = sym (ap (λ y. y.1.values) h)

  pub popped-member :
      (key m n : ℕ) (s s' : SampleStore V) (b : Option (ℕ × ℕ))
      → popped key s b ≡ (done (some (m, n)), s')
      → b ≡ some (m, n)
  unfolding popped
  popped-member key m n s s' none h = absurd (ground arith)
  popped-member key m n s s' (some (i, x)) h = ground arith

  pub popped-none :
      (key : ℕ) (s s' : SampleStore V) (b : Option (ℕ × ℕ))
      → popped key s b ≡ (done none, s')
      → s' ≡ s
  unfolding popped
  popped-none key s s' none h = sym (ap (λ y. y.1) h)
  popped-none key s s' (some (i, x)) h = absurd (ground arith)

  pub value-changed :
      (id i : ℕ) (o : Option V) (s s' : SampleStore V)
      → ◌≡◌ {A = Reply (Unit {0}) × SampleStore V} (done tt, with_value id o s) (done tt, s')
      → ((i ≡ id) × (s'.values i ≡ o)) ⊎ ((i ≢ id) × (s'.values i ≡ s.values i))
  value-changed id i o s s' h =
      let after = sym (ap (λ y. y.1.values i) h) in
      elim (Bool-cases (i == id)) [
        | inl e ↦ inl (ground arith, ground (arith, after))
        | inr e ↦ inr (ground arith, ground (arith, after))
      ]

  pub score-added :
      (key n member k m : ℕ) (s s' : SampleStore V)
      → ◌≡◌ {A = Reply (Unit {0}) × SampleStore V}
          (done tt, with_scores key (insert member n (s.scores key)) s)
          (done tt, s')
      → ((k ≡ key) × (m ≡ member) × (score_in k m s' ≡ some n))
        ⊎ (((k ≢ key) ⊎ (m ≢ member)) × (score_in k m s' ≡ score_in k m s))
  score-added key n member k m s s' h =
      let after = sym (ap (λ y. score_in k m y.1) h) in
      let is = lookup-insert member m n (s.scores key) in
      elim (Bool-cases (k == key)) [
        | inl e ↦ elim (Bool-cases (member == m)) [
          | inl q ↦ inl (ground arith, ground arith, ground (arith, after, is))
          | inr q ↦ inr (inr (ground arith), ground (arith, after, is))
        ]
        | inr e ↦ inr (inl (ground arith), ground (arith, after))
      ]

  pub score-removed :
      (key member k m : ℕ) (s s' : SampleStore V)
      → ◌≡◌ {A = Reply (Unit {0}) × SampleStore V}
          (done tt, with_scores key (wipe member (s.scores key)) s)
          (done tt, s')
      → ((k ≡ key) × (m ≡ member) × (score_in k m s' ≡ none))
        ⊎ (((k ≢ key) ⊎ (m ≢ member)) × (score_in k m s' ≡ score_in k m s))
  score-removed key member k m s s' h =
      let after = sym (ap (λ y. score_in k m y.1) h) ∙ score_in-wiped key member k m s in
      elim (Bool-cases (k == key)) [
        | inl e ↦ elim (Bool-cases (member == m)) [
          | inl q ↦ inl (ground arith, ground arith, ground (arith, after))
          | inr q ↦ inr (inr (ground arith), ground (arith, after))
        ]
        | inr e ↦ inr (inl (ground arith), ground (arith, after))
      ]

  abbrev pub sample : Redis V
  sample = record {
    Store = SampleStore V;
    score = score_in;
    cached = λ i s. s.values i;
    set = λ id v ttl s. (done tt, with_value id (some v) s);
    get = λ id s. done (s.values id);
    delete = λ id s. (done tt, with_value id none s);
    publish = λ c v s. (done tt, s);
    zadd = λ key n m s. (done tt, with_scores key (insert m n (s.scores key)) s);
    zrem = λ key m s. (done tt, with_scores key (wipe m (s.scores key)) s);
    bzpopmax = λ key timeout s. popped key s (best_of (s.scores key) (s.scores key));
    set-cached = λ id v ttl i s s' h. value-changed id i (some v) s s' h;
    set-score = λ id v ttl k m s s' h. sym (ap (λ y. score_in k m y.1) h);
    get-cached = λ id o s h. ground (arith, h);
    delete-cached = λ id i s s' h. value-changed id i none s s' h;
    delete-score = λ id k m s s' h. sym (ap (λ y. score_in k m y.1) h);
    publish-cached = λ c i v s s' h. sym (ap (λ y. y.1.values i) h);
    publish-score = λ c k m v s s' h. sym (ap (λ y. score_in k m y.1) h);
    zadd-score = λ key n member k m s s' h. score-added key n member k m s s' h;
    zadd-cached = λ key n member i s s' h. sym (ap (λ y. y.1.values i) h);
    zrem-score = λ key member k m s s' h. score-removed key member k m s s' h;
    zrem-cached = λ key member i s s' h. sym (ap (λ y. y.1.values i) h);
    bzpopmax-score = λ key timeout member n k m s s' h.
        popped-score key member n k m s s' (best_of (s.scores key) (s.scores key))
          (best_of-lookup (s.scores key) (s.scores key) member n) h;
    bzpopmax-max = λ key timeout member n m p s s' h q.
        IsAtLeast-le p member n (best_of (s.scores key) (s.scores key))
          (best_of-IsAtLeast (s.scores key) (s.scores key) m p p q q)
          (popped-member key member n s s' (best_of (s.scores key) (s.scores key)) h);
    bzpopmax-cached = λ key timeout i o s s' h.
        ap (λ f. f i) (popped-value key s s' o (best_of (s.scores key) (s.scores key)) h);
    bzpopmax-none = λ key timeout k m s s' h.
        ap (score_in k m) (popped-none key s s' (best_of (s.scores key) (s.scores key)) h);
  }
