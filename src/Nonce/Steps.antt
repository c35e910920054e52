-- ===== src/Nonce/Steps.antt =====
-- What each call does to the nonces that are cached for an address.
use diamond_bot_v.Base.{
  ℕ, ◌+◌, ◌^◌, ◌≤◌, ◌≡◌, ◌≢◌, ◌⊎◌, refl, sym, ap, subst, ◌∙◌, inl, inr, true, Option, none, some,
  List, [], ◌∷◌, arith, ltb, lookup, insert, erase, HasDistinctKeys, lookup-insert_self,
  lookup-insert_ne, lookup-erase, Bool-cases, insert-HasDistinctKeys, erase-HasDistinctKeys,
}
use diamond_bot_v.Nonce.{
  NonceManager, ok, needs_refresh, with_nonce, hand_out, refresh, get_next_nonce, updated,
  reset_nonce, remove_all,
}

-- What a call that takes the node's answer, if there is one, leaves of the bound.
abbrev pub recounted : ℕ → Option ℕ → ℕ
recounted h none = h
recounted h (some c) = 0

-- The cache has an address at most once, and what it has for this one is `h` or more.
pub record IsAhead (address h : ℕ) (m : NonceManager) : Type 0 where
  pub once : HasDistinctKeys m.nonces
  pub ahead : (n : ℕ) → lookup address m.nonces ≡ some n → h ≤ n

hand_out-nonces :
    (address n : ℕ) (m : NonceManager)
    → ltb (n + 1) (2 ^ 256) ≡ true
    → (hand_out address (some n) m).1.nonces ≡ insert address (n + 1) m.nonces
hand_out-nonces address n m b = rw b refl

hand_out-ok :
    (address nonce : ℕ) (o : Option ℕ) (m m' : NonceManager)
    → hand_out address o m ≡ (ok nonce, m')
    → (o ≡ some nonce) × (m'.nonces ≡ insert address (nonce + 1) m.nonces)
hand_out-ok address nonce none m m' e = absurd (ground arith)
hand_out-ok address nonce (some n) m m' e = elim (Bool-cases (ltb (n + 1) (2 ^ 256))) [
  | inl b ↦
      let same : n ≡ nonce = ground arith in
      (
        ap some same,
        sym (ap (λ y. y.1.nonces) e)
            ∙ hand_out-nonces address n m b
            ∙ ap (λ k. insert address (k + 1) m.nonces) same,
      )
  | inr b ↦ absurd (ground arith)
]

pub insert-IsAhead :
    (address h n : ℕ) (m m' : NonceManager)
    → m'.nonces ≡ insert address n m.nonces
    → h ≤ n
    → HasDistinctKeys m.nonces
    → IsAhead address h m'
insert-IsAhead address h n m m' e le once = record {
  once = subst HasDistinctKeys (sym e) (insert-HasDistinctKeys address n m.nonces once);
  ahead =
      λ k l. ground (arith, sym (ap (lookup address) e) ∙ l, lookup-insert_self address n m.nonces);
}

-- Any of the two ways of `get_next_nonce`.
get_next_nonce-cases :
    (now address : ℕ) (chain : Option ℕ) (m : NonceManager)
    → (get_next_nonce now address chain m ≡ refresh now address chain m)
      ⊎ (get_next_nonce now address chain m ≡ hand_out address (lookup address m.nonces) m)
get_next_nonce-cases now address chain m = elim (Bool-cases (needs_refresh now address m)) [
  | inl b ↦ inl (rw b refl)
  | inr b ↦ inr (rw b refl)
]

pub refresh-ok :
    (now address nonce : ℕ) (chain : Option ℕ) (m m' : NonceManager)
    → HasDistinctKeys m.nonces
    → refresh now address chain m ≡ (ok nonce, m')
    → (chain ≡ some nonce) × IsAhead address (nonce + 1) m'
refresh-ok now address nonce none m m' once e = absurd (ground arith)
refresh-ok now address nonce (some n) m m' once e =
    let fresh = with_nonce now address n m in
    let (is, puts) = hand_out-ok address nonce (lookup address fresh.nonces) fresh m' e in
    (
      sym (lookup-insert_self address n m.nonces) ∙ is,
      insert-IsAhead address (nonce + 1) (nonce + 1) fresh m' puts (omega arith)
          (insert-HasDistinctKeys address n m.nonces once),
    )

pub fresh-ok :
    (address h nonce : ℕ) (m m' : NonceManager)
    → IsAhead address h m
    → hand_out address (lookup address m.nonces) m ≡ (ok nonce, m')
    → (h ≤ nonce) × IsAhead address (nonce + 1) m'
fresh-ok address h nonce m m' x e =
    let (is, puts) = hand_out-ok address nonce (lookup address m.nonces) m m' e in
    (
      x.ahead nonce is,
      insert-IsAhead address (nonce + 1) (nonce + 1) m m' puts (omega arith) x.once,
    )

pub other-IsAhead :
    (address other h n : ℕ) (m m' : NonceManager)
    → m'.nonces ≡ insert other n m.nonces
    → other ≢ address
    → IsAhead address h m
    → IsAhead address h m'
other-IsAhead address other h n m m' e ne x = record {
  once = subst HasDistinctKeys (sym e) (insert-HasDistinctKeys other n m.nonces x.once);
  ahead = λ k l.
      x.ahead k
        (sym (lookup-insert_ne other address n m.nonces ne) ∙ sym (ap (lookup address) e) ∙ l);
}

hand_out-other :
    (address other h : ℕ) (o : Option ℕ) (m : NonceManager)
    → other ≢ address
    → IsAhead address h m
    → IsAhead address h (hand_out other o m).1
hand_out-other address other h none m ne x = x
hand_out-other address other h (some n) m ne x = elim (Bool-cases (ltb (n + 1) (2 ^ 256))) [
  | inl b ↦
      other-IsAhead address other h (n + 1) m (hand_out other (some n) m).1
        (hand_out-nonces other n m b) ne x
  | inr b ↦ rw b x
]

refresh-other :
    (now address other h : ℕ) (chain : Option ℕ) (m : NonceManager)
    → other ≢ address
    → IsAhead address h m
    → IsAhead address h (refresh now other chain m).1
refresh-other now address other h none m ne x = x
refresh-other now address other h (some n) m ne x =
    let fresh = with_nonce now other n m in
    hand_out-other address other h (lookup other fresh.nonces) fresh ne
      (other-IsAhead address other h n m fresh refl ne x)

pub get_next_nonce-other :
    (now address other h : ℕ) (chain : Option ℕ) (m : NonceManager)
    → other ≢ address
    → IsAhead address h m
    → IsAhead address h (get_next_nonce now other chain m).1
get_next_nonce-other now address other h chain m ne x =
    elim (get_next_nonce-cases now other chain m) [
      | inl r ↦
          subst (λ y. IsAhead address h y.1) (sym r)
            (refresh-other now address other h chain m ne x)
      | inr r ↦
          subst (λ y. IsAhead address h y.1) (sym r)
            (hand_out-other address other h (lookup other m.nonces) m ne x)
    ]

pub remove_all-IsAhead :
    (address h : ℕ) (addresses : List ℕ) (m : NonceManager)
    → IsAhead address h m
    → IsAhead address h (remove_all addresses m)
unfolding remove_all
remove_all-IsAhead address h [] m x = x
remove_all-IsAhead address h (a ∷ addresses) m x =
    let smaller : NonceManager = record m {
      nonces = erase a m.nonces;
      last_updates = erase a m.last_updates;
    } in
    remove_all-IsAhead address h addresses smaller (record {
      once = erase-HasDistinctKeys a m.nonces x.once;
      ahead = λ n l. ground (arith, x.ahead n, lookup-erase a address m.nonces x.once);
    })

-- What an update leaves of the bound: it begins anew where nothing is cached.
abbrev pub kept : ℕ → Option ℕ → ℕ
kept h none = 0
kept h (some c) = h

pub updated-le :
    (h new_nonce : ℕ) (o : Option ℕ)
    → ((n : ℕ) → o ≡ some n → h ≤ n)
    → kept h o ≤ updated new_nonce o
updated-le h new_nonce none g = omega arith
updated-le h new_nonce (some n) g = ground (arith, g n refl)

pub reset_nonce-IsAhead :
    (now address h : ℕ) (chain : Option ℕ) (m : NonceManager)
    → IsAhead address h m
    → IsAhead address (recounted h chain) (reset_nonce now address chain m).1
reset_nonce-IsAhead now address h none m x = x
reset_nonce-IsAhead now address h (some n) m x =
    insert-IsAhead address 0 n m (with_nonce now address n m) refl (omega arith) x.once

pub reset_nonce-other :
    (now address other h : ℕ) (chain : Option ℕ) (m : NonceManager)
    → other ≢ address
    → IsAhead address h m
    → IsAhead address h (reset_nonce now other chain m).1
reset_nonce-other now address other h none m ne x = x
reset_nonce-other now address other h (some n) m ne x =
    other-IsAhead address other h n m (with_nonce now other n m) refl ne x

failed_hand_out :
    (address : ℕ) (o : Option ℕ) (m : NonceManager)
    → ((nonce : ℕ) → (hand_out address o m).0 ≢ ok nonce)
    → (hand_out address o m).1 ≡ m
failed_hand_out address none m q = refl
failed_hand_out address (some n) m q = elim (Bool-cases (ltb (n + 1) (2 ^ 256))) [
  | inl b ↦ absurd (q n (rw b refl))
  | inr b ↦ rw b refl
]

recounted-IsAhead :
    (address h : ℕ) (chain : Option ℕ) (m : NonceManager)
    → IsAhead address h m
    → IsAhead address (recounted h chain) m
recounted-IsAhead address h none m x = x
recounted-IsAhead address h (some n) m x = record { once = x.once; ahead = λ k l. omega arith }

failed_refresh :
    (now address h : ℕ) (chain : Option ℕ) (m : NonceManager)
    → IsAhead address h m
    → ((nonce : ℕ) → (refresh now address chain m).0 ≢ ok nonce)
    → IsAhead address (recounted h chain) (refresh now address chain m).1
failed_refresh now address h none m x q = x
failed_refresh now address h (some n) m x q =
    let fresh = with_nonce now address n m in
    subst (IsAhead address 0) (sym (failed_hand_out address (lookup address fresh.nonces) fresh q))
      (insert-IsAhead address 0 n m fresh refl (omega arith) x.once)

-- A `get_next_nonce` that hands out nothing.
pub get_next_nonce-failed :
    (now address h : ℕ) (chain : Option ℕ) (m : NonceManager)
    → IsAhead address h m
    → ((nonce : ℕ) → (get_next_nonce now address chain m).0 ≢ ok nonce)
    → IsAhead address (recounted h chain) (get_next_nonce now address chain m).1
get_next_nonce-failed now address h chain m x q = elim (get_next_nonce-cases now address chain m) [
  | inl r ↦
      subst (λ y. IsAhead address (recounted h chain) y.1) (sym r)
        (failed_refresh now address h chain m x (λ n e. q n (ap (λ y. y.0) r ∙ e)))
  | inr r ↦
      subst (λ y. IsAhead address (recounted h chain) y.1) (sym r)
        (subst (IsAhead address (recounted h chain))
          (sym (
            failed_hand_out address (lookup address m.nonces) m (λ n e. q n (ap (λ y. y.0) r ∙ e))))
          (recounted-IsAhead address h chain m x))
]
