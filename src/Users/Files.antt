-- ===== src/Users/Files.antt =====
-- The manager and its file: what a restart finds.
use diamond_bot_v.Base.{
  ℕ, ◌≡◌, inl, inr, refl, sym, ap, ◌∙◌, Option, none, some, List, [], ◌∷◌, arith, ◌==◌, ◌&&◌, Dict,
  lookup, erase, Bool-cases, HasDistinctKeys, lookup-erase_self,
}
use diamond_bot_v.Users.Account.{
  User, Hashing, verify_password, add_wallet, remove_wallet, update_subscription, set_password,
  update_last_login,
}
use diamond_bot_v.Users.Manager.{
  UserManager, File, absent, holds, Write, written, refused, torn, ok, err, unreadable, unwritable,
  World, default_password, any_user, find_user, collides, get_user, put, saved, new, add_user,
  first_start, default_admin, logs_in, login_found, login_at, change_found, change_at, changed,
  delete_user, delete_at,
}
use diamond_bot_v.Users.History.{
  Call, adds, logs_in_as, changes_password, resets_password, updates, assigns, unassigns,
  subscribes, deletes, writes, call, run,
}

module _ {H : Type 0} (hashing : Hashing H) where
  -- The file holds the users that the manager has.
  abbrev pub InSync : World H → Type 0
  InSync (m, file) = file ≡ holds m.users

  -- The write that a call does, if it gets there; what is written through `get_user_mut` does not get
  -- to the file.
  abbrev pub write_of : Call H → Write
  write_of (adds w u) = w
  write_of (logs_in_as now username password w) = w
  write_of (changes_password now salt username old new w) = w
  write_of (resets_password now salt id new w) = w
  write_of (updates now id f w) = w
  write_of (assigns now id wallet w) = w
  write_of (unassigns now id wallet w) = w
  write_of (subscribes now id level days w) = w
  write_of (deletes id w) = w
  write_of (writes id f) = refused

  abbrev pub AllWritten : List (Call H) → Type 0
  AllWritten [] = Unit {0}
  AllWritten (c ∷ cs) = (write_of c ≡ written) × AllWritten cs

  saved-InSync :
      {A : Type 0} (w : Write) (a : A) (m : UserManager H) (file : File H)
      → w ≡ written
      → InSync (saved w a m file).1
  saved-InSync written a m file e = refl
  saved-InSync refused a m file e = absurd (ground arith)
  saved-InSync torn a m file e = absurd (ground arith)

  changed-InSync :
      (id : ℕ) (o : Option (User H)) (w : Write) (m : UserManager H) (file : File H)
      → w ≡ written
      → InSync (m, file)
      → InSync (changed id o w m file).1
  changed-InSync id none w m file e s = s
  changed-InSync id (some u) w m file e s = saved-InSync w tt (put id u m) file e

  change_at-InSync :
      (o : Option (User H)) (id : ℕ) (f : User H → Option (User H)) (w : Write) (m : UserManager H)
      (file : File H)
      → w ≡ written
      → InSync (m, file)
      → InSync (change_at o id f w m file).1
  change_at-InSync none id f w m file e s = s
  change_at-InSync (some u) id f w m file e s = changed-InSync id (f u) w m file e s

  login_at-InSync :
      (o : Option (User H)) (id now : ℕ) (w : Write) (m : UserManager H) (file : File H)
      → w ≡ written
      → InSync (m, file)
      → InSync (login_at hashing o id now w m file).1
  login_at-InSync none id now w m file e s = s
  login_at-InSync (some u) id now w m file e s =
      saved-InSync w (update_last_login now u) (put id (update_last_login now u) m) file e

  login_found-InSync :
      (o : Option (User H)) (now : ℕ) (w : Write) (m : UserManager H) (file : File H)
      → w ≡ written
      → InSync (m, file)
      → InSync (login_found hashing o now w m file).1
  login_found-InSync none now w m file e s = s
  login_found-InSync (some u) now w m file e s =
      login_at-InSync (lookup u.id m.users) u.id now w m file e s

  change_found-InSync :
      (now salt new_password : ℕ) (o : Option (User H)) (w : Write) (m : UserManager H)
      (file : File H)
      → w ≡ written
      → InSync (m, file)
      → InSync (change_found hashing o now salt new_password w m file).1
  change_found-InSync now salt new_password none w m file e s = s
  change_found-InSync now salt new_password (some u) w m file e s =
      change_at-InSync (lookup u.id m.users) u.id (set_password hashing now salt new_password) w m
        file e s

  delete_at-InSync :
      (o : Option (User H)) (id : ℕ) (w : Write) (m : UserManager H) (file : File H)
      → w ≡ written
      → InSync (m, file)
      → InSync (delete_at o id w m file).1
  delete_at-InSync none id w m file e s = s
  delete_at-InSync (some u) id w m file e s =
      saved-InSync w tt (record m { users = erase id m.users }) file e

  add_user-InSync :
      (w : Write) (u : User H) (m : UserManager H) (file : File H)
      → w ≡ written
      → InSync (m, file)
      → InSync (add_user w u m file).1
  add_user-InSync w u m file e s = elim (Bool-cases (any_user (collides u) m.users)) [
    | inl q ↦ rw q s
    | inr q ↦ rw q (saved-InSync w tt (put u.id u m) file e)
  ]

  call-InSync :
      (c : Call H) (m : UserManager H) (file : File H)
      → write_of c ≡ written
      → InSync (m, file)
      → InSync (call hashing c (m, file))
  call-InSync (adds w u) m file e s = add_user-InSync w u m file e s
  call-InSync (logs_in_as now username password w) m file e s =
      login_found-InSync (find_user (logs_in hashing username password) m.users) now w m file e s
  call-InSync (changes_password now salt username old new_password w) m file e s =
      change_found-InSync now salt new_password
        (find_user (λ u. (u.username == username) && verify_password hashing old u) m.users) w m
        file e s
  call-InSync (resets_password now salt id new_password w) m file e s =
      change_at-InSync (lookup id m.users) id (set_password hashing now salt new_password) w m file
        e s
  call-InSync (updates now id f w) m file e s =
      change_at-InSync (lookup id m.users) id (λ u. some (record (f u) { updated_at = now })) w m
        file e s
  call-InSync (assigns now id wallet w) m file e s =
      change_at-InSync (lookup id m.users) id (λ u. some (add_wallet now wallet u)) w m file e s
  call-InSync (unassigns now id wallet w) m file e s =
      change_at-InSync (lookup id m.users) id (λ u. some (remove_wallet now wallet u)) w m file e s
  call-InSync (subscribes now id level days w) m file e s =
      change_at-InSync (lookup id m.users) id (λ u. some (update_subscription now level days u)) w m
        file e s
  call-InSync (deletes id w) m file e s = delete_at-InSync (lookup id m.users) id w m file e s
  call-InSync (writes id f) m file e s = absurd (ground arith)

  run-InSync :
      (s : World H) (cs : List (Call H)) → AllWritten cs → InSync s → InSync (run hashing s cs)
  unfolding run
  run-InSync s [] a x = x
  run-InSync s (c ∷ cs) (w, a) x = run-InSync (call hashing c s) cs a (call-InSync c s.0 s.1 w x)

  abbrev default_admins : ℕ → ℕ → ℕ → ℕ → H → UserManager H
  default_admins path now uuid key k = record {
    users = (uuid, default_admin hashing now uuid key k) ∷ [];
    path = path;
  }

  first_start-InSync :
      (path now uuid key : ℕ) (m : UserManager H) (file : File H) (o : Option H)
      → first_start hashing path now uuid key written o ≡ (ok m, file)
      → InSync (m, file)
  first_start-InSync path now uuid key m file none h = absurd (ground arith)
  first_start-InSync path now uuid key m file (some k) h =
      let is : (default_admins path now uuid key k) ≡ m = ground arith in
      sym (ap (λ y. y.1) h) ∙ ap (λ y. holds y.users) is

  restarted :
      (path now uuid key salt : ℕ) (w : Write) (users : Dict (User H)) (file : File H)
      → file ≡ holds users
      → new hashing path now uuid key salt w file
        ≡ (ok (record { users = users; path = path }), file)
  restarted path now uuid key salt w users file e = rw e refl

  -- After a first start and any calls in all of which the file was written, which leaves out what is
  -- written through `get_user_mut`, a restart that can open and read the file has exactly the users
  -- that the manager had.
  pub restart_finds_users :
      (path now uuid key salt later uuid' key' salt' : ℕ) (w : Write) (m : UserManager H)
      (file : File H) (cs : List (Call H))
      → new hashing path now uuid key salt written absent ≡ (ok m, file)
      → AllWritten cs
      → new hashing path later uuid' key' salt' w (run hashing (m, file) cs).1 ≡ (
        ok (record { users = (run hashing (m, file) cs).0.users; path = path }),
        (run hashing (m, file) cs).1,
      )
  restart_finds_users path now uuid key salt later uuid' key' salt' w m file cs h a =
      restarted path later uuid' key' salt' w (run hashing (m, file) cs).0.users
        (run hashing (m, file) cs).1
        (run-InSync (m, file) cs a
          (first_start-InSync path now uuid key m file (hashing.bcrypt salt default_password) h))

  -- A deletion whose file cannot be opened gives an error, and yet the user is gone from memory; a
  -- restart brings the user back. If the write is cut short instead, no restart reads the file again.
  pub unwritten_deletion :
      (path now uuid key salt id : ℕ) (u : User H) (w : Write) (m : UserManager H) (file : File H)
      → HasDistinctKeys m.users
      → InSync (m, file)
      → get_user id m ≡ some u
      → ((delete_user id refused m file).0 ≡ err unwritable)
        × (get_user id (delete_user id refused m file).1.0 ≡ none)
        × (new hashing path now uuid key salt w (delete_user id refused m file).1.1
            ≡ (ok (record { users = m.users; path = path }), file))
        × ((new hashing path now uuid key salt w (delete_user id torn m file).1.1).0
            ≡ err unreadable)
  unwritten_deletion path now uuid key salt id u w m file d s e = rw e (
    refl,
    lookup-erase_self id m.users d,
    restarted path now uuid key salt w m.users file s,
    refl,
  )
