-- ===== src/Users/Names.antt =====
-- Names and addresses of the users stay distinct, so that a search by one of them finds its user in
-- any order of the map.
use diamond_bot_v.Base.{
  ℕ, ◌≡◌, ◌≢◌, ◌⊎◌, inl, inr, refl, sym, ap, subst, ◌∙◌, Bool, true, false, Option, none, some,
  List, [], ◌∷◌, arith, ◌==◌, Dict, lookup, insert, erase, Option-cases, Bool-cases,
  HasDistinctKeys, insert-HasDistinctKeys, erase-HasDistinctKeys, lookup-insert, lookup-erase,
  ==→eq,
}
use diamond_bot_v.Users.Account.{User, Hashing}
use diamond_bot_v.Users.Manager.{
  World, any_user, find_user, collides, get_user_by_username, get_user_by_email, get_user,
}
use diamond_bot_v.Users.History.{Call, call, run, touched_id, KeepsIdentity, call-Change}
use diamond_bot_v.Users.Change.{Change, kept, edited, added, removed}

module _ {H : Type 0} where
  -- Every user stands once, under its own id, and no two share a name or an address.
  pub record IsIndexed (d : Dict (User H)) : Type 0 where
    pub once : HasDistinctKeys d
    pub own_id : (k : ℕ) (u : User H) → lookup k d ≡ some u → u.id ≡ k
    pub apart :
        (i j : ℕ) (u v : User H)
        → lookup i d ≡ some u
        → lookup j d ≡ some v
        → i ≢ j
        → (u.username ≢ v.username) × (u.email ≢ v.email)

  any_user-false :
      (p : User H → Bool) (d : Dict (User H)) (k : ℕ) (u : User H)
      → any_user p d ≡ false
      → lookup k d ≡ some u
      → p u ≡ false
  any_user-false p [] k u h e = absurd (ground arith)
  any_user-false p ((j, v) ∷ d) k u h e = ground (arith, any_user-false p d k u)

  find_user-none :
      (p : User H → Bool) (d : Dict (User H)) (k : ℕ) (u : User H)
      → find_user p d ≡ none
      → lookup k d ≡ some u
      → p u ≡ false
  find_user-none p [] k u h e = absurd (ground arith)
  find_user-none p ((j, v) ∷ d) k u h e = ground (arith, find_user-none p d k u)

  pub find_user-lookup :
      (p : User H → Bool) (d : Dict (User H)) (u : User H)
      → HasDistinctKeys d
      → find_user p d ≡ some u
      → (p u ≡ true) × (k : ℕ) × (lookup k d ≡ some u)
  find_user-lookup p [] u h e = absurd (ground arith)
  find_user-lookup p ((j, v) ∷ d) u h e = elim (Bool-cases (p v)) [
    | inl t ↦ (ground arith, j, ground arith)
    | inr f ↦ let (t, k, l) = find_user-lookup p d u h.1 (ground arith) in (t, k, ground arith)
  ]

  -- A test that at most one user passes finds it.
  pub find_user-only :
      (p : User H → Bool) (d : Dict (User H)) (k : ℕ) (u : User H)
      → HasDistinctKeys d
      → lookup k d ≡ some u
      → p u ≡ true
      → ((j : ℕ) (v : User H) → lookup j d ≡ some v → p v ≡ true → j ≡ k)
      → find_user p d ≡ some u
  find_user-only p d k u h e t only = elim (Option-cases (find_user p d)) [
    | inl n ↦ absurd (ground (arith, find_user-none p d k u n e))
    | inr (v, n) ↦
        let (s, j, l) = find_user-lookup p d v h n in
        let same = only j v l s in n ∙ sym l ∙ ap (λ i. lookup i d) same ∙ e
  ]

  pub IsIndexed-same_name :
      (i j : ℕ) (u v : User H) (d : Dict (User H))
      → IsIndexed d
      → lookup i d ≡ some u
      → lookup j d ≡ some v
      → v.username ≡ u.username
      → j ≡ i
  IsIndexed-same_name i j u v d x e f n = elim (Bool-cases (j == i)) [
    | inl q ↦ ==→eq j i q
    | inr q ↦ absurd ((x.apart j i v u f e (ground arith)).0 n)
  ]

  inserted-cases :
      (i j : ℕ) (v w : User H) (d : Dict (User H))
      → lookup j (insert i v d) ≡ some w
      → ((j ≡ i) × (v ≡ w)) ⊎ ((j ≢ i) × (lookup j d ≡ some w))
  inserted-cases i j v w d e = elim (Bool-cases (i == j)) [
    | inl t ↦ inl (ground arith, ground (arith, lookup-insert i j v d))
    | inr f ↦ inr (ground arith, ground (arith, lookup-insert i j v d))
  ]

  erased-lookup :
      (i j : ℕ) (w : User H) (d : Dict (User H))
      → HasDistinctKeys d
      → lookup j (erase i d) ≡ some w
      → lookup j d ≡ some w
  erased-lookup i j w d h e = ground (arith, lookup-erase i j d h)

  insert-IsIndexed :
      (i : ℕ) (v : User H) (d : Dict (User H))
      → IsIndexed d
      → v.id ≡ i
      → ((j : ℕ) (w : User H)
          → lookup j d ≡ some w
          → j ≢ i
          → (v.username ≢ w.username) × (v.email ≢ w.email))
      → IsIndexed (insert i v d)
  insert-IsIndexed i v d x own away = record {
    once = insert-HasDistinctKeys i v d x.once;
    own_id = λ k u e. elim (inserted-cases i k v u d e) [
      | inl (same, is) ↦ sym (ap (λ y. y.id) is) ∙ own ∙ sym same
      | inr (other, l) ↦ x.own_id k u l
    ];
    apart = λ j k u w e f ne. elim (inserted-cases i j v u d e) [
      | inl (same, is) ↦ elim (inserted-cases i k v w d f) [
        | inl (same', is') ↦ absurd (ground arith)
        | inr (other', l') ↦
            ground (arith, away k w l' other', ap (λ y. y.username) is, ap (λ y. y.email) is)
      ]
      | inr (other, l) ↦ elim (inserted-cases i k v w d f) [
        | inl (same', is') ↦
            ground (arith, away j u l other, ap (λ y. y.username) is', ap (λ y. y.email) is')
        | inr (other', l') ↦ x.apart j k u w l l' ne
      ]
    ];
  }

  erase-IsIndexed : (i : ℕ) (d : Dict (User H)) → IsIndexed d → IsIndexed (erase i d)
  erase-IsIndexed i d x = record {
    once = erase-HasDistinctKeys i d x.once;
    own_id = λ k u e. x.own_id k u (erased-lookup i k u d x.once e);
    apart = λ j k u w e f ne.
        x.apart j k u w (erased-lookup i j u d x.once e) (erased-lookup i k w d x.once f) ne;
  }

  module _ (hashing : Hashing H) where
    Change-IsIndexed :
        (t : Option ℕ) (d d' : Dict (User H)) → Change hashing t d d' → IsIndexed d → IsIndexed d'
    Change-IsIndexed t d d' (kept e) x = subst IsIndexed (sym e) x
    Change-IsIndexed t d d' (edited i u v l edit e) x = subst IsIndexed (sym e) (
        insert-IsIndexed i v d x (edit.same_id ∙ x.own_id i u l)
          (λ j w k ne. ground (arith, x.apart i j u w l k, edit.same_username, edit.same_email)))
    Change-IsIndexed t d d' (added u q f e) x = subst IsIndexed (sym e) (
        insert-IsIndexed u.id u d x refl
          (λ j w k ne. ground (arith, any_user-false (collides u) d j w f k)))
    Change-IsIndexed t d d' (removed i q e) x = subst IsIndexed (sym e) (erase-IsIndexed i d x)

    abbrev pub AllKeepIdentity : List (Call H) → Type 0
    AllKeepIdentity [] = Unit {0}
    AllKeepIdentity (c ∷ cs) = KeepsIdentity hashing c × AllKeepIdentity cs

    pub run-IsIndexed :
        (s : World H) (cs : List (Call H))
        → AllKeepIdentity cs
        → IsIndexed s.0.users
        → IsIndexed (run hashing s cs).0.users
    unfolding run
    run-IsIndexed s [] k x = x
    run-IsIndexed s (c ∷ cs) (h, k) x = run-IsIndexed (call hashing c s) cs k (
        Change-IsIndexed (touched_id hashing c) s.0.users (call hashing c s).0.users
          (call-Change hashing c s.0 s.1 h) x)

    -- The searches by name and by address of a manager in which users are distinct, for instance an
    -- empty one, after any calls, failed writes included, where the closures of `update_user` and what
    -- is written through `get_user_mut` leave id, name, address and hash as they are: each user that is
    -- stored is found by both, under its own id.
    pub run_finds_users :
        (s : World H) (cs : List (Call H)) (id : ℕ) (u : User H)
        → AllKeepIdentity cs
        → IsIndexed s.0.users
        → get_user id (run hashing s cs).0 ≡ some u
        → (u.id ≡ id)
          × (get_user_by_username u.username (run hashing s cs).0 ≡ some u)
          × (get_user_by_email u.email (run hashing s cs).0 ≡ some u)
    run_finds_users s cs id u k x e =
        let users = (run hashing s cs).0.users in
        let y = run-IsIndexed s cs k x in
        (
          y.own_id id u e,
          find_user-only (λ v. v.username == u.username) users id u y.once e (ground arith)
              (λ j v l t. ground (arith, y.apart j id v u l e)),
          find_user-only (λ v. v.email == u.email) users id u y.once e (ground arith)
              (λ j v l t. ground (arith, y.apart j id v u l e)),
        )
