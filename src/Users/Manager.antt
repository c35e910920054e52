-- ===== src/Users/Manager.antt =====
-- `UserManager` of common/src/user.rs, with the JSON file that it keeps its users in. The map is an
-- association list, so `values()` has an order; writing the file may fail before the file is touched,
-- or after it was emptied.
use diamond_bot_v.Base.{
  ℕ, Bool, true, false, ◌&&◌, ◌||◌, Option, none, some, List, [], ◌∷◌, map, ◌==◌, if◌then◌else◌,
  Dict, lookup, insert, erase,
}
use diamond_bot_v.Users.Subscription.{Subscription, SubscriptionLevel, vip}
use diamond_bot_v.Users.Subscription as Sub
use diamond_bot_v.Users.Account.{
  User, Hashing, admin, admin_name, verify_password, set_password, update_last_login, add_wallet,
  remove_wallet, update_subscription,
}

pub data UserError : Type 0 where
  already_exists invalid_credentials not_found no_subscription hashing_failed unreadable
        unwritable :
      UserError

pub data Answer (A : Type 0) : Type 0 where
  ok : A → Answer A
  err : UserError → Answer A

-- What the file holds: nothing yet, a text that is not the users' JSON, or users.
pub data File (H : Type 0) : Type 0 where
  absent garbled : File H
  holds : Dict (User H) → File H

-- How a write of the file ends.
pub data Write : Type 0 where
  written refused torn : Write

pub record UserManager (H : Type 0) : Type 0 where
  pub users : Dict (User H)
  pub path : ℕ

-- `"admin123"` and the other strings of the default account.
abbrev pub default_password : ℕ
default_password = 123

abbrev pub default_name : ℕ
default_name = 1

abbrev pub default_email : ℕ
default_email = 2

-- The manager and its file.
abbrev pub World : Type 0 → Type 0
World H = UserManager H × File H

-- A method's answer, and what it leaves.
abbrev pub Outcome : Type 0 → Type 0 → Type 0
Outcome H A = Answer A × World H

module _ {H : Type 0} where
  abbrev pub any_user : (User H → Bool) → Dict (User H) → Bool
  any_user p [] = false
  any_user p ((k, u) ∷ d) = if p u then true else any_user p d

  abbrev pub find_user : (User H → Bool) → Dict (User H) → Option (User H)
  find_user p [] = none
  find_user p ((k, u) ∷ d) = if p u then some u else find_user p d

  -- `Ok` is taken to mean that the file holds the bytes.
  abbrev pub save : Write → UserManager H → File H → Answer (Unit {0}) × File H
  save written m file = (ok tt, holds m.users)
  save refused m file = (err unwritable, file)
  save torn m file = (err unwritable, garbled)

  abbrev pub load : UserManager H → File H → Answer (UserManager H)
  load m (holds users) = ok (record m { users = users })
  load m _ = err unreadable

  -- The end of a method that saves: `self.save().await?; Ok(a)`.
  abbrev pub saved : {A : Type 0} → Write → A → UserManager H → File H → Outcome H A
  saved written a m file = (ok a, (m, holds m.users))
  saved refused a m file = (err unwritable, (m, file))
  saved torn a m file = (err unwritable, (m, garbled))

  abbrev pub put : ℕ → User H → UserManager H → UserManager H
  put id u m = record m { users = insert id u m.users }

  abbrev pub collides : User H → User H → Bool
  collides user u = (u.username == user.username) || (u.email == user.email)

  abbrev pub add_user : Write → User H → UserManager H → File H → Outcome H (Unit {0})
  add_user w user m file =
      if any_user (collides user) m.users
      then (err already_exists, (m, file))
      else saved w tt (put user.id user m) file

  abbrev pub get_user : ℕ → UserManager H → Option (User H)
  get_user id m = lookup id m.users

  -- `get_user_mut`, and what its caller writes through the reference.
  abbrev pub get_user_mut : ℕ → (User H → User H) → UserManager H → Option (UserManager H)
  get_user_mut id f m = elim (lookup id m.users) [ none ↦ none | some u ↦ some (put id (f u) m) ]

  abbrev pub get_user_by_username : ℕ → UserManager H → Option (User H)
  get_user_by_username username m = find_user (λ u. u.username == username) m.users

  abbrev pub get_user_by_email : ℕ → UserManager H → Option (User H)
  get_user_by_email email m = find_user (λ u. u.email == email) m.users

  abbrev pub get_all_users : UserManager H → List (User H)
  get_all_users m = map (λ p. p.1) m.users

  -- `if let Some(user) = self.users.get_mut(id)`: the change of the user, which may fail, and the save.
  abbrev pub changed : ℕ → Option (User H) → Write → UserManager H → File H → Outcome H (Unit {0})
  changed id none w m file = (err hashing_failed, (m, file))
  changed id (some u) w m file = saved w tt (put id u m) file

  abbrev pub change_at :
      Option (User H)
      → ℕ
      → (User H → Option (User H))
      → Write
      → UserManager H
      → File H
      → Outcome H (Unit {0})
  change_at none id f w m file = (err not_found, (m, file))
  change_at (some u) id f w m file = changed id (f u) w m file

  abbrev pub change_user :
      ℕ → (User H → Option (User H)) → Write → UserManager H → File H → Outcome H (Unit {0})
  change_user id f w m file = change_at (lookup id m.users) id f w m file

  abbrev pub update_user :
      ℕ → ℕ → (User H → User H) → Write → UserManager H → File H → Outcome H (Unit {0})
  update_user now id update_fn w m file =
      change_user id (λ u. some (record (update_fn u) { updated_at = now })) w m file

  abbrev pub delete_at : Option (User H) → ℕ → Write → UserManager H → File H → Outcome H (Unit {0})
  delete_at none id w m file = (err not_found, (m, file))
  delete_at (some u) id w m file = saved w tt (record m { users = erase id m.users }) file

  abbrev pub delete_user : ℕ → Write → UserManager H → File H → Outcome H (Unit {0})
  delete_user id w m file = delete_at (lookup id m.users) id w m file

  abbrev pub assign_wallet : ℕ → ℕ → ℕ → Write → UserManager H → File H → Outcome H (Unit {0})
  assign_wallet now id wallet w m file =
      change_user id (λ u. some (add_wallet now wallet u)) w m file

  abbrev pub unassign_wallet : ℕ → ℕ → ℕ → Write → UserManager H → File H → Outcome H (Unit {0})
  unassign_wallet now id wallet w m file =
      change_user id (λ u. some (remove_wallet now wallet u)) w m file

  abbrev pub update_user_subscription :
      ℕ → ℕ → SubscriptionLevel → ℕ → Write → UserManager H → File H → Outcome H (Unit {0})
  update_user_subscription now id level duration_days w m file =
      change_user id (λ u. some (update_subscription now level duration_days u)) w m file

  abbrev pub subscription_of : Option (User H) → Answer Subscription
  subscription_of none = err not_found
  subscription_of (some u) = elim u.subscription [ none ↦ err no_subscription | some s ↦ ok s ]

  abbrev pub get_user_subscription : ℕ → UserManager H → Answer Subscription
  get_user_subscription username m = subscription_of (get_user_by_username username m)

module _ {H : Type 0} (hashing : Hashing H) where
  -- The account that is made when there is no file yet.
  abbrev pub default_admin : ℕ → ℕ → ℕ → H → User H
  default_admin now uuid key h = record {
    id = uuid;
    username = default_name;
    email = default_email;
    password_hash = h;
    created_at = now;
    updated_at = now;
    last_login = none;
    api_key = some key;
    roles = admin_name ∷ [];
    settings = [];
    subscription_id = none;
    role = some admin;
    wallets = [];
    active = true;
    subscription = some (Sub.new now vip 365);
  }

  -- The first start, with the hash of the default password.
  abbrev pub first_start : ℕ → ℕ → ℕ → ℕ → Write → Option H → Answer (UserManager H) × File H
  first_start path now uuid key w none = (err hashing_failed, absent)
  first_start path now uuid key w (some h) =
      let m : UserManager H = record {
        users = (uuid, default_admin now uuid key h) ∷ [];
        path = path;
      } in
      let (r, file) = save w m absent in (elim r [ ok u ↦ ok m | err e ↦ err e ], file)

  -- `UserManager::new`, in a folder that is there; a file that is there can be opened and read.
  abbrev pub new : ℕ → ℕ → ℕ → ℕ → ℕ → Write → File H → Answer (UserManager H) × File H
  new path now uuid key salt w absent =
      first_start path now uuid key w (hashing.bcrypt salt default_password)
  new path now uuid key salt w garbled = (err unreadable, garbled)
  new path now uuid key salt w (holds users) =
      (load (record { users = []; path = path }) (holds users), holds users)

  abbrev pub logs_in : ℕ → ℕ → User H → Bool
  logs_in username password u =
      ((u.username == username) && verify_password hashing password u) && u.active

  abbrev pub login_at :
      Option (User H) → ℕ → ℕ → Write → UserManager H → File H → Outcome H (User H)
  login_at none id now w m file = (err not_found, (m, file))
  login_at (some u) id now w m file =
      saved w (update_last_login now u) (put id (update_last_login now u) m) file

  abbrev pub login_found : Option (User H) → ℕ → Write → UserManager H → File H → Outcome H (User H)
  login_found none now w m file = (err invalid_credentials, (m, file))
  login_found (some u) now w m file = login_at (lookup u.id m.users) u.id now w m file

  abbrev pub authenticate : ℕ → ℕ → ℕ → Write → UserManager H → File H → Outcome H (User H)
  authenticate now username password w m file =
      login_found (find_user (logs_in username password) m.users) now w m file

  abbrev pub reset_password : ℕ → ℕ → ℕ → ℕ → Write → UserManager H → File H → Outcome H (Unit {0})
  reset_password now salt id new_password w m file =
      change_user id (set_password hashing now salt new_password) w m file

  abbrev pub change_found :
      Option (User H) → ℕ → ℕ → ℕ → Write → UserManager H → File H → Outcome H (Unit {0})
  change_found none now salt new_password w m file = (err invalid_credentials, (m, file))
  change_found (some u) now salt new_password w m file =
      reset_password now salt u.id new_password w m file

  abbrev pub change_password :
      ℕ → ℕ → ℕ → ℕ → ℕ → Write → UserManager H → File H → Outcome H (Unit {0})
  change_password now salt username old_password new_password w m file =
      change_found
        (find_user (λ u. (u.username == username) && verify_password hashing old_password u)
          m.users)
        now salt new_password w m file
