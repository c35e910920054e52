-- ===== src/Users/Passwords.antt =====
-- Logging in: `User::new` hashes with bcrypt, and `set_password` with argon2, which `verify_password`
-- never accepts.
use diamond_bot_v.Base.{
  ℕ, ◌≡◌, ◌⊎◌, inl, inr, refl, sym, ap, subst, ◌∙◌, Bool, true, false, Option, none, some, List, [],
  ◌∷◌, arith, ◌==◌, ◌&&◌, lookup, Option-cases, lookup-insert_self,
}
use diamond_bot_v.Users.Account.{
  User, Hashing, verify_password, set_password, update_last_login, new, registered,
}
use diamond_bot_v.Users.Manager.{
  UserManager, File, Write, written, ok, err, invalid_credentials, World, any_user, find_user,
  collides, get_user, put, saved, add_user, authenticate, logs_in, login_found, login_at,
  change_password, change_found, change_user, change_at, changed,
}
use diamond_bot_v.Users.History.{Call, adds, changes_password, run}
use diamond_bot_v.Users.Change.{saved-users}
use diamond_bot_v.Users.Names.{
  IsIndexed, IsIndexed-same_name, AllKeepIdentity, run-IsIndexed, find_user-lookup, find_user-only,
}
use diamond_bot_v.Users.Locked.{
  IsLockedAs, AllSpare, run-IsLockedAs, logs_in-name, IsLockedAs-refused,
}

module _ {H : Type 0} (hashing : Hashing H) where
  set_password-IsLockedAs :
      (now salt new id : ℕ) (u : User H) (o : Option H) (w : Write) (m : UserManager H)
      (file : File H) (s' : World H)
      → hashing.argon2 salt new ≡ o
      → changed id
          (elim o [
            | none ↦ none
            | some h ↦ some (record u { password_hash = h; updated_at = now })
          ])
          w
          m
          file
        ≡ (ok tt, s')
      → IsLockedAs hashing id u.username s'.0.users
  set_password-IsLockedAs now salt new id u none w m file s' a h = absurd (ground arith)
  set_password-IsLockedAs now salt new id u (some k) w m file s' a h =
      let v : User H = record u { password_hash = k; updated_at = now } in
      record {
        account = v;
        stored =
            ap (λ y. lookup id y.1.0.users) (sym h)
            ∙ ap (lookup id) (saved-users hashing w tt (put id v m) file)
            ∙ lookup-insert_self id v m.users;
        same_name = refl;
        locked = λ q. hashing.verify-argon2 salt new q k a;
      }

  change_found-IsLockedAs :
      (now salt new id : ℕ) (u : User H) (w : Write) (m : UserManager H) (file : File H)
      (s' : World H) (o : Option (User H))
      → lookup id m.users ≡ some u
      → (o ≡ none) ⊎ ((v : User H) × (o ≡ some v) × (v.id ≡ id))
      → change_found hashing o now salt new w m file ≡ (ok tt, s')
      → IsLockedAs hashing id u.username s'.0.users
  change_found-IsLockedAs now salt new id u w m file s' o e (inl n) h =
      absurd (ground (arith, ap (λ y. change_found hashing y now salt new w m file) n))
  change_found-IsLockedAs now salt new id u w m file s' o e (inr (v, n, i)) h =
      set_password-IsLockedAs now salt new id u (hashing.argon2 salt new) w m file s' refl (
        sym (ap (λ y. change_at y id (set_password hashing now salt new) w m file) e)
        ∙ sym (ap (λ j. change_user j (set_password hashing now salt new) w m file) i)
        ∙ sym (ap (λ y. change_found hashing y now salt new w m file) n)
        ∙ h)

  name_of_test :
      (username old : ℕ) (v : User H)
      → ((v.username == username) && verify_password hashing old v) ≡ true
      → v.username ≡ username
  name_of_test username old v t = ground arith

  -- Once a user has changed the password, in a manager in which users are distinct, no password logs
  -- in under the user's name any more, the new one included: not after any calls, failed writes
  -- included, that neither make nor delete the account, where the closures of `update_user` and what
  -- is written through `get_user_mut` leave identities and hashes as they are. A new password set by
  -- anyone does not help.
  pub changed_password_locks_out :
      (now salt old new id later p : ℕ) (u : User H) (w w' : Write) (m : UserManager H)
      (file : File H) (s' : World H) (cs : List (Call H))
      → IsIndexed m.users
      → get_user id m ≡ some u
      → change_password hashing now salt u.username old new w m file ≡ (ok tt, s')
      → AllKeepIdentity hashing cs
      → AllSpare hashing id cs
      → authenticate hashing later u.username p w' (run hashing s' cs).0 (run hashing s' cs).1
        ≡ (err invalid_credentials, run hashing s' cs)
  unfolding run
  changed_password_locks_out now salt old new id later p u w w' m file s' cs x e h k a =
      let test : User H → Bool = λ v. (v.username == u.username) && verify_password hashing old v in
      let c = changes_password now salt u.username old new w in
      let y =
        subst (λ t. IsIndexed (run hashing t cs).0.users) (ap (λ r. r.1) h)
          (run-IsIndexed hashing (m, file) (c ∷ cs) (tt, k) x) in
      let found : (find_user test m.users ≡ none)
          ⊎ ((v : User H) × (find_user test m.users ≡ some v) × (v.id ≡ id)) =
        elim (Option-cases (find_user test m.users)) [
          | inl n ↦ inl n
          | inr (v, n) ↦
              let (t, j, l) = find_user-lookup test m.users v x.once n in
              inr (
                v,
                n,
                x.own_id j v l
                    ∙ IsIndexed-same_name id j u v m.users x e l (name_of_test u.username old v t),
              )
        ] in
      let locked =
        change_found-IsLockedAs now salt new id u w m file s' (find_user test m.users) e found h in
      IsLockedAs-refused hashing id u.username later p w' (run hashing s' cs) y
        (run-IsLockedAs hashing id u.username s' cs k a locked)

  added_users :
      (w : Write) (u : User H) (m : UserManager H) (file : File H)
      → any_user (collides u) m.users ≡ false
      → lookup u.id (add_user w u m file).1.0.users
        ≡ lookup u.id (saved w tt (put u.id u m) file).1.0.users
  added_users w u m file free = rw free refl

  stored_logs_in :
      (id username p now : ℕ) (u : User H) (m : UserManager H) (file : File H)
      → IsIndexed m.users
      → lookup id m.users ≡ some u
      → logs_in hashing username p u ≡ true
      → (authenticate hashing now username p written m file).0 ≡ ok (update_last_login now u)
  stored_logs_in id username p now u m file x e t =
      let found = find_user-only (logs_in hashing username p) m.users id u x.once e t (λ j v l q.
        IsIndexed-same_name id j u v m.users x e l
          (logs_in-name hashing username p v q ∙ sym (logs_in-name hashing username p u t))) in
      ap (λ o. (login_found hashing o now written m file).0) found
      ∙ ap (λ o. (login_at hashing o u.id now written m file).0)
          (ap (λ i. lookup i m.users) (x.own_id id u e) ∙ e)

  registered-logs_in :
      (now uuid key salt username email p : ℕ) (u : User H) (o : Option H)
      → hashing.bcrypt salt p ≡ o
      → elim o [ none ↦ none | some h ↦ some (registered now uuid key username email h) ] ≡ some u
      → logs_in hashing username p u ≡ true
  registered-logs_in now uuid key salt username email p u none e h = absurd (ground arith)
  registered-logs_in now uuid key salt username email p u (some k) e h =
      let is : registered now uuid key username email k ≡ u = ground arith in
      ap (logs_in hashing username p) (sym is) ∙ ground (arith, hashing.verify-bcrypt salt p k e)

  -- A user who has just been registered with a password, in a manager in which users are distinct,
  -- logs in with it, whether or not the registration could be written, and is answered with the new
  -- time of login.
  pub registered_logs_in :
      (now uuid key salt username email p later : ℕ) (u : User H) (w : Write) (m : UserManager H)
      (file file' : File H)
      → IsIndexed m.users
      → new hashing now uuid key salt username email p ≡ some u
      → any_user (collides u) m.users ≡ false
      → (authenticate hashing later username p written (add_user w u m file).1.0 file').0
        ≡ ok (update_last_login later u)
  unfolding run
  registered_logs_in now uuid key salt username email p later u w m file file' x is free =
      let m' = (add_user w u m file).1.0 in
      let y = run-IsIndexed hashing (m, file) (adds w u ∷ []) (tt, tt) x in
      let stored =
        added_users w u m file free
        ∙ ap (lookup u.id) (saved-users hashing w tt (put u.id u m) file)
        ∙ lookup-insert_self u.id u m.users in
      let ready =
        registered-logs_in now uuid key salt username email p u (hashing.bcrypt salt p) refl is in
      stored_logs_in u.id username p later u m' file' y stored ready
