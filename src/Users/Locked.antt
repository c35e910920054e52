-- ===== src/Users/Locked.antt =====
-- Accounts to which no password logs in, and that they stay so.
use diamond_bot_v.Base.{
  ℕ, ◌≡◌, ◌≢◌, inl, inr, sym, ap, subst, ◌∙◌, true, Option, some, List, [], ◌∷◌, arith, ◌==◌, Dict,
  lookup, insert, Option-cases, Bool-cases, lookup-insert_self, lookup-insert_ne, lookup-erase_ne,
}
use diamond_bot_v.Users.Account.{User, Hashing}
use diamond_bot_v.Users.Manager.{
  Write, err, invalid_credentials, World, find_user, authenticate, logs_in, login_found,
}
use diamond_bot_v.Users.History.{Call, call, run, touched_id, call-Change}
use diamond_bot_v.Users.Change.{Change, kept, edited, added, removed, Edit, IsLocked}
use diamond_bot_v.Users.Names.{IsIndexed, IsIndexed-same_name, AllKeepIdentity, find_user-lookup}

module _ {H : Type 0} (hashing : Hashing H) where
  -- No password logs in to the account at an id, which has this name.
  pub record IsLockedAs (id username : ℕ) (d : Dict (User H)) : Type 0 where
    pub account : User H
    pub stored : lookup id d ≡ some account
    pub same_name : account.username ≡ username
    pub locked : IsLocked hashing account

  Edit-IsLocked : (u v : User H) → Edit hashing u v → IsLocked hashing u → IsLocked hashing v
  Edit-IsLocked u v edit l = elim edit.hash [
    | inl same ↦ λ q. ap (hashing.verify q) same ∙ l q
    | inr now ↦ now
  ]

  same_user :
      (u v : User H) (d : Dict (User H)) (id : ℕ)
      → lookup id d ≡ some u
      → lookup id d ≡ some v
      → u ≡ v
  same_user u v d id e f = ground arith

  Change-IsLockedAs :
      (id username : ℕ) (t : Option ℕ) (d d' : Dict (User H))
      → Change hashing t d d'
      → t ≢ some id
      → IsLockedAs id username d
      → IsLockedAs id username d'
  Change-IsLockedAs id username t d d' (kept e) ne x = subst (IsLockedAs id username) (sym e) x
  Change-IsLockedAs id username t d d' (edited i u v l edit e) ne x =
      subst (IsLockedAs id username) (sym e) (elim (Bool-cases (i == id)) [
        | inl s ↦
            let at : i ≡ id = ground arith in
            let is : u ≡ x.account =
              same_user u x.account d id (ap (λ k. lookup k d) (sym at) ∙ l) x.stored in
            record {
              account = v;
              stored = ap (λ k. lookup id (insert k v d)) at ∙ lookup-insert_self id v d;
              same_name = edit.same_username ∙ ap (λ y. y.username) is ∙ x.same_name;
              locked =
                  Edit-IsLocked u v edit
                    (λ q. ap (λ y. hashing.verify q y.password_hash) is ∙ x.locked q);
            }
        | inr s ↦ record {
          account = x.account;
          stored = lookup-insert_ne i id v d (ground arith) ∙ x.stored;
          same_name = x.same_name;
          locked = x.locked;
        }
      ])
  Change-IsLockedAs id username t d d' (added u q f e) ne x =
      subst (IsLockedAs id username) (sym e) (record {
        account = x.account;
        stored = lookup-insert_ne u.id id u d (λ s. ne (q ∙ ap some s)) ∙ x.stored;
        same_name = x.same_name;
        locked = x.locked;
      })
  Change-IsLockedAs id username t d d' (removed i q e) ne x =
      subst (IsLockedAs id username) (sym e) (record {
        account = x.account;
        stored = lookup-erase_ne i id d (λ s. ne (q ∙ ap some s)) ∙ x.stored;
        same_name = x.same_name;
        locked = x.locked;
      })

  -- Calls that neither make nor delete the account at an id.
  abbrev pub AllSpare : ℕ → List (Call H) → Type 0
  AllSpare id [] = Unit {0}
  AllSpare id (c ∷ cs) = (touched_id hashing c ≢ some id) × AllSpare id cs

  pub run-IsLockedAs :
      (id username : ℕ) (s : World H) (cs : List (Call H))
      → AllKeepIdentity hashing cs
      → AllSpare id cs
      → IsLockedAs id username s.0.users
      → IsLockedAs id username (run hashing s cs).0.users
  unfolding run
  run-IsLockedAs id username s [] k a x = x
  run-IsLockedAs id username s (c ∷ cs) (h, k) (b, a) x =
      run-IsLockedAs id username (call hashing c s) cs k a (
        Change-IsLockedAs id username (touched_id hashing c) s.0.users (call hashing c s).0.users
          (call-Change hashing c s.0 s.1 h) b x)

  pub logs_in-name :
      (username p : ℕ) (u : User H) → logs_in hashing username p u ≡ true → u.username ≡ username
  logs_in-name username p u t = ground arith

  locked-fails :
      (username p : ℕ) (u : User H) → IsLocked hashing u → logs_in hashing username p u ≢ true
  locked-fails username p u l t = ground (arith, l p)

  -- A login to a locked account is refused, and changes nothing.
  pub IsLockedAs-refused :
      (id username now p : ℕ) (w : Write) (s : World H)
      → IsIndexed s.0.users
      → IsLockedAs id username s.0.users
      → authenticate hashing now username p w s.0 s.1 ≡ (err invalid_credentials, s)
  IsLockedAs-refused id username now p w s x l =
      elim (Option-cases (find_user (logs_in hashing username p) s.0.users)) [
        | inl n ↦ ap (λ o. login_found hashing o now w s.0 s.1) n
        | inr (v, n) ↦
            let (t, k, e) = find_user-lookup (logs_in hashing username p) s.0.users v x.once n in
            let named : v.username ≡ username = logs_in-name username p v t in
            let at =
              IsIndexed-same_name id k l.account v s.0.users x l.stored e
                (named ∙ sym l.same_name) in
            let is : v ≡ l.account =
              same_user v l.account s.0.users id (ap (λ i. lookup i s.0.users) (sym at) ∙ e)
                l.stored in
            absurd (
              locked-fails username p l.account l.locked
                (ap (logs_in hashing username p) (sym is) ∙ t))
      ]
