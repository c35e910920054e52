-- ===== src/Users/History.antt =====
-- The calls of the manager, and what each of them may do to the users.
use diamond_bot_v.Base.{ℕ, ◌≡◌, refl, Option, none, some, List, [], ◌∷◌, arith, ◌==◌, ◌&&◌, lookup}
use diamond_bot_v.Users.Subscription.{SubscriptionLevel}
use diamond_bot_v.Users.Account.{
  User, Hashing, verify_password, set_password, add_wallet, remove_wallet, update_subscription,
}
use diamond_bot_v.Users.Manager.{
  UserManager, File, Write, World, find_user, put, get_user_mut, add_user, update_user, delete_user,
  assign_wallet, unassign_wallet, update_user_subscription, authenticate, logs_in, reset_password,
  change_password,
}
use diamond_bot_v.Users.Change.{
  Change, kept, edited, total-Edit, set_password-IsEdit, total-IsEdit, change_user-Change,
  delete_at-Change, add_user-Change, login_found-Change, change_found-Change,
}

pub data Call (H : Type 0) : Type 0 where
  adds : Write → User H → Call H
  logs_in_as : ℕ → ℕ → ℕ → Write → Call H
  changes_password : ℕ → ℕ → ℕ → ℕ → ℕ → Write → Call H
  resets_password : ℕ → ℕ → ℕ → ℕ → Write → Call H
  updates : ℕ → ℕ → (User H → User H) → Write → Call H
  assigns : ℕ → ℕ → ℕ → Write → Call H
  unassigns : ℕ → ℕ → ℕ → Write → Call H
  subscribes : ℕ → ℕ → SubscriptionLevel → ℕ → Write → Call H
  deletes : ℕ → Write → Call H
  writes : ℕ → (User H → User H) → Call H

-- What is left in memory of a write through `get_user_mut`, which saves nothing.
abbrev pub or_else : {H : Type 0} → UserManager H → Option (UserManager H) → UserManager H
or_else m none = m
or_else m (some m') = m'

module _ {H : Type 0} (hashing : Hashing H) where
  abbrev pub call : Call H → World H → World H
  call (adds w user) (m, file) = (add_user w user m file).1
  call (logs_in_as now username password w) (m, file) =
      (authenticate hashing now username password w m file).1
  call (changes_password now salt username old new w) (m, file) =
      (change_password hashing now salt username old new w m file).1
  call (resets_password now salt id new w) (m, file) =
      (reset_password hashing now salt id new w m file).1
  call (updates now id f w) (m, file) = (update_user now id f w m file).1
  call (assigns now id wallet w) (m, file) = (assign_wallet now id wallet w m file).1
  call (unassigns now id wallet w) (m, file) = (unassign_wallet now id wallet w m file).1
  call (subscribes now id level days w) (m, file) =
      (update_user_subscription now id level days w m file).1
  call (deletes id w) (m, file) = (delete_user id w m file).1
  call (writes id f) (m, file) = (or_else m (get_user_mut id f m), file)

  unfoldable pub run : World H → List (Call H) → World H
  run s [] = s
  run s (c ∷ cs) = run (call c s) cs

  -- The account that a call makes or deletes.
  abbrev pub touched_id : Call H → Option ℕ
  touched_id (adds w user) = some user.id
  touched_id (deletes id w) = some id
  touched_id _ = none

  -- The closures of `update_user` and what is written through `get_user_mut` leave who the user is,
  -- and the hash.
  abbrev pub KeepsIdentity : Call H → Type 0
  KeepsIdentity (updates now id f w) =
      (u : User H)
      → ((f u).id ≡ u.id)
        × ((f u).username ≡ u.username)
        × ((f u).email ≡ u.email)
        × ((f u).password_hash ≡ u.password_hash)
  KeepsIdentity (writes id f) =
      (u : User H)
      → ((f u).id ≡ u.id)
        × ((f u).username ≡ u.username)
        × ((f u).email ≡ u.email)
        × ((f u).password_hash ≡ u.password_hash)
  KeepsIdentity _ = Unit {0}

  add_wallet-keeps :
      (now wallet : ℕ) (u : User H)
      → ((add_wallet now wallet u).id ≡ u.id)
        × ((add_wallet now wallet u).username ≡ u.username)
        × ((add_wallet now wallet u).email ≡ u.email)
        × ((add_wallet now wallet u).password_hash ≡ u.password_hash)
  add_wallet-keeps now wallet u = ground arith

  written-Change :
      (id : ℕ) (f : User H → User H) (m : UserManager H) (o : Option (User H))
      → lookup id m.users ≡ o
      → ((u : User H)
          → ((f u).id ≡ u.id)
            × ((f u).username ≡ u.username)
            × ((f u).email ≡ u.email)
            × ((f u).password_hash ≡ u.password_hash))
      → Change hashing none m.users
          (or_else m (elim o [ none ↦ none | some u ↦ some (put id (f u) m) ])).users
  written-Change id f m none e k = kept refl
  written-Change id f m (some u) e k = edited id u (f u) e (total-Edit hashing f k u) refl

  pub call-Change :
      (c : Call H) (m : UserManager H) (file : File H)
      → KeepsIdentity c
      → Change hashing (touched_id c) m.users (call c (m, file)).0.users
  call-Change (adds w u) m file k = add_user-Change hashing w u m file
  call-Change (logs_in_as now username password w) m file k =
      login_found-Change hashing now (find_user (logs_in hashing username password) m.users) w m
        file
  call-Change (changes_password now salt username old new w) m file k =
      change_found-Change hashing now salt new
        (find_user (λ u. (u.username == username) && verify_password hashing old u) m.users) w m
        file
  call-Change (resets_password now salt id new w) m file k =
      change_user-Change hashing id (set_password hashing now salt new) w m file
        (set_password-IsEdit hashing now salt new)
  call-Change (updates now id f w) m file k =
      change_user-Change hashing id (λ u. some (record (f u) { updated_at = now })) w m file
        (total-IsEdit hashing (λ u. record (f u) { updated_at = now }) k)
  call-Change (assigns now id wallet w) m file k =
      change_user-Change hashing id (λ u. some (add_wallet now wallet u)) w m file
        (total-IsEdit hashing (add_wallet now wallet) (add_wallet-keeps now wallet))
  call-Change (unassigns now id wallet w) m file k =
      change_user-Change hashing id (λ u. some (remove_wallet now wallet u)) w m file
        (total-IsEdit hashing (remove_wallet now wallet) (λ u. (refl, refl, refl, refl)))
  call-Change (subscribes now id level days w) m file k =
      change_user-Change hashing id (λ u. some (update_subscription now level days u)) w m file
        (total-IsEdit hashing (update_subscription now level days) (λ u. (refl, refl, refl, refl)))
  call-Change (deletes id w) m file k = delete_at-Change hashing id (lookup id m.users) w m file
  call-Change (writes id f) m file k = written-Change id f m (lookup id m.users) refl k
