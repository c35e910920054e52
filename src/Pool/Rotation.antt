-- ===== src/Pool/Rotation.antt =====
-- The round robin of `get_provider` meets every endpoint of a list once.
use diamond_bot_v.Base.{
  ℕ, zero, suc, ◌+◌, ◌%◌, ◌≤◌, ◌<◌, ◌≡◌, ◌≢◌, ◌⊎◌, refl, sym, ap, subst, ◌∙◌, inl, inr, Bool, true,
  ◌&&◌, none, some, List, [], ◌∷◌, arith, ltb, ◌==◌, ==→eq, length, Bool-cases, Option-cases,
}
use native.Mathlib.Nat.{mod-eq_of_lt, mod_self}
use diamond_bot_v.Pool.{PooledEndpoint, is_available, at, use_at, pick}

-- The endpoint at an index is available and gives a permit in time.
pub record IsReady (permits : ℕ → Bool) (es : List PooledEndpoint) (i : ℕ) : Type 0 where
  pub endpoint : PooledEndpoint
  pub stands : at i es ≡ some endpoint
  pub available : is_available endpoint.info ≡ true
  pub permit : permits i ≡ true

next_index-cases :
    (next len : ℕ)
    → next < len
    → ((next + 1 < len) × ((next + 1) % len ≡ next + 1))
      ⊎ ((next + 1 ≡ len) × ((next + 1) % len ≡ 0))
next_index-cases next len lt = elim (Bool-cases (ltb (next + 1) len)) [
  | inl b ↦ let small : next + 1 < len = ground arith in inl (small, mod-eq_of_lt small)
  | inr b ↦
      let same : next + 1 ≡ len = ground arith in inr (same, ap (λ n. n % len) same ∙ mod_self len)
]

next_index-small : (next len : ℕ) → next < len → (next + 1) % len < len
next_index-small next len lt = elim (next_index-cases next len lt) [
  | inl (small, e) ↦ ground (arith, e)
  | inr (same, e) ↦ ground (arith, e)
]

pub pick-IsReady :
    (n : ℕ) (permits : ℕ → Bool) (es : List PooledEndpoint) (next i after : ℕ)
    → pick n permits es next ≡ (some i, after)
    → IsReady permits es i
unfolding pick
pick-IsReady zero permits es next i after h = absurd (ground arith)
pick-IsReady (suc n) permits es next i after h = elim (Option-cases (at next es)) [
  | inl e ↦ absurd (ground arith)
  | inr (x, e) ↦ elim (Bool-cases (is_available x.info && permits next)) [
    | inl b ↦
        let same : next ≡ i = ground arith in
        record {
          endpoint = x;
          stands = ap (λ k. at k es) (sym same) ∙ e;
          available = ground arith;
          permit = ap permits (sym same) ∙ ground arith;
        }
    | inr b ↦ pick-IsReady n permits es ((next + 1) % length es) i after (ground arith)
  ]
]

at-none : (i : ℕ) (es : List PooledEndpoint) → at i es ≡ none → length es ≤ i
at-none i [] h = omega arith
at-none zero (e ∷ es) h = absurd (ground arith)
at-none (suc i) (e ∷ es) h = ground (arith, at-none i es h)

-- Index `j` is among the `n` indices that a round from `next` meets.
abbrev IsMet : ℕ → ℕ → ℕ → ℕ → Type 0
IsMet n next len j = ((next ≤ j) × (j < next + n)) ⊎ (j + len < next + n)

IsMet-later :
    (n next len j : ℕ)
    → next < len
    → j < len
    → n ≤ len
    → IsMet (suc n) next len j
    → next ≢ j
    → IsMet n ((next + 1) % len) len j
IsMet-later n next len j lt lj fit m ne = elim (next_index-cases next len lt) [
  | inl (small, e) ↦ ground (arith, e)
  | inr (same, e) ↦ ground (arith, e)
]

pick-none :
    (n : ℕ) (permits : ℕ → Bool) (es : List PooledEndpoint) (next after j : ℕ)
    → pick n permits es next ≡ (none, after)
    → next < length es
    → n ≤ length es
    → j < length es
    → IsMet n next (length es) j
    → IsReady permits es j
    → ⊥
unfolding pick
pick-none zero permits es next after j h lt fit lj m r = ground arith
pick-none (suc n) permits es next after j h lt fit lj m r = elim (Option-cases (at next es)) [
  | inl e ↦ ground (arith, at-none next es e)
  | inr (x, e) ↦ elim (Bool-cases (next == j)) [
    | inl b ↦
        let same = ==→eq next j b in
        let is : some x ≡ some r.endpoint = sym e ∙ ap (λ k. at k es) same ∙ r.stands in
        let it : x ≡ r.endpoint = ground arith in
        let free : is_available x.info ≡ true = ap (λ y. is_available y.info) it ∙ r.available in
        let granted : permits next ≡ true = ap permits same ∙ r.permit in ground arith
    | inr b ↦ elim (Bool-cases (is_available x.info && permits next)) [
      | inl c ↦ absurd (ground arith)
      | inr c ↦
          pick-none n permits es ((next + 1) % length es) after j (ground arith)
            (next_index-small next (length es) lt) (omega arith) lj
            (IsMet-later n next (length es) j lt lj (omega arith) m (ground arith)) r
    ]
  ]
]

-- An index to start from: within the list, unless that is empty.
abbrev pub IsPlaced : ℕ → List PooledEndpoint → Type 0
IsPlaced next es = (next < length es) ⊎ (length es ≡ 0)

at-length :
    (i : ℕ) (es : List PooledEndpoint) (e : PooledEndpoint) → at i es ≡ some e → i < length es
at-length i [] e h = absurd (ground arith)
at-length zero (x ∷ es) e h = omega arith
at-length (suc i) (x ∷ es) e h = ground (arith, at-length i es e)

pub pick-all :
    (permits : ℕ → Bool) (es : List PooledEndpoint) (next after j : ℕ)
    → pick (length es) permits es next ≡ (none, after)
    → IsPlaced next es
    → IsReady permits es j
    → ⊥
pick-all permits es next after j h (inl lt) r =
    let lj = at-length j es r.endpoint r.stands in
    pick-none (length es) permits es next after j h lt (omega arith) lj (ground arith) r
pick-all permits es next after j h (inr e) r = ground (arith, at-length j es r.endpoint r.stands)

pick-small :
    (n : ℕ) (permits : ℕ → Bool) (es : List PooledEndpoint) (next : ℕ)
    → next < length es
    → (pick n permits es next).1 < length es
unfolding pick
pick-small zero permits es next lt = lt
pick-small (suc n) permits es next lt =
    let small = next_index-small next (length es) lt in
    let later = pick-small n permits es ((next + 1) % length es) small in
    elim (Option-cases (at next es)) [
      | inl e ↦ ground arith
      | inr (x, e) ↦ elim (Bool-cases (is_available x.info && permits next)) [
        | inl b ↦ ground arith
        | inr b ↦ ground arith
      ]
    ]

pub pick-IsPlaced :
    (permits : ℕ → Bool) (es es' : List PooledEndpoint) (next : ℕ)
    → length es' ≡ length es
    → IsPlaced next es
    → IsPlaced (pick (length es) permits es next).1 es'
pick-IsPlaced permits es es' next e (inl lt) = inl (
    subst (λ n. (pick (length es) permits es next).1 < n) (sym e)
      (pick-small (length es) permits es next lt))
pick-IsPlaced permits es es' next e (inr none_) = inr (e ∙ none_)

pub length-use_at : (now i : ℕ) (es : List PooledEndpoint) → length (use_at now i es) ≡ length es
length-use_at now i [] = refl
length-use_at now zero (e ∷ es) = refl
length-use_at now (suc i) (e ∷ es) = ap suc (length-use_at now i es)
