-- ===== src/Users/Account.antt =====
-- `User` of common/src/user.rs, and the hashing libraries that it calls.
use diamond_bot_v.Base.{
  ℕ, ◌≡◌, Bool, true, false, not, Option, none, some, List, [], ◌∷◌, if◌then◌else◌, Dict, push,
  contains, without,
}
use diamond_bot_v.Users.Subscription as Sub
use diamond_bot_v.Users.Subscription.{
  Subscription, SubscriptionLevel, free, is_active, extend, update_level,
}

pub data UserRole : Type 0 where
  admin user : UserRole

-- `"user"` and `"admin"`, as the roles of an account spell them.
pub data RoleName : Type 0 where
  user_name admin_name : RoleName

-- The password hashing libraries, bcrypt and argon2: a hash by either may fail. `bcrypt::verify`
-- accepts the password of a bcrypt hash, and gives an error on a string that is no bcrypt hash, such
-- as one of argon2, which starts with `$argon2`.
pub record Hashing (H : Type 0) : Type 0 where
  pub bcrypt : ℕ → ℕ → Option H
  pub argon2 : ℕ → ℕ → Option H
  pub verify : ℕ → H → Option Bool
  pub verify-bcrypt : (salt p : ℕ) (h : H) → bcrypt salt p ≡ some h → verify p h ≡ some true
  pub verify-argon2 : (salt p q : ℕ) (h : H) → argon2 salt p ≡ some h → verify q h ≡ none

pub record User (H : Type 0) : Type 0 where
  pub id : ℕ
  pub username : ℕ
  pub email : ℕ
  pub password_hash : H
  pub created_at : ℕ
  pub updated_at : ℕ
  pub last_login : Option ℕ
  pub api_key : Option ℕ
  pub roles : List RoleName
  pub settings : Dict ℕ
  pub subscription_id : Option ℕ
  pub role : Option UserRole
  pub wallets : List ℕ
  pub active : Bool
  pub subscription : Option Subscription

pub record UserInfo : Type 0 where
  pub username : ℕ
  pub email : ℕ
  pub role : RoleName
  pub wallets : List ℕ
  pub last_login : Option ℕ

abbrev pub first_or : {A : Type 0} → A → List A → A
first_or a [] = a
first_or a (x ∷ xs) = x

abbrev pub is_admin : Option UserRole → Bool
is_admin (some admin) = true
is_admin _ = false

-- The subscription that `update_subscription` leaves.
abbrev pub renewed : ℕ → SubscriptionLevel → ℕ → Option Subscription → Subscription
renewed now level days none = Sub.new now level days
renewed now level days (some s) =
    if is_active now s then update_level level (extend now days s) else Sub.new now level days

module _ {H : Type 0} where
  -- The account that `User::new` makes once the password is hashed.
  abbrev pub registered : ℕ → ℕ → ℕ → ℕ → ℕ → H → User H
  registered now uuid key username email h = record {
    id = uuid;
    username = username;
    email = email;
    password_hash = h;
    created_at = now;
    updated_at = now;
    last_login = none;
    api_key = some key;
    roles = user_name ∷ [];
    settings = [];
    subscription_id = none;
    role = some user;
    wallets = [];
    active = true;
    subscription = some (Sub.new now free 365);
  }

module _ {H : Type 0} (hashing : Hashing H) where
  open hashing use {bcrypt, argon2, verify}

  abbrev pub new : ℕ → ℕ → ℕ → ℕ → ℕ → ℕ → ℕ → Option (User H)
  new now uuid key salt username email password = elim (bcrypt salt password) [
    | none ↦ none
    | some h ↦ some (registered now uuid key username email h)
  ]

  abbrev pub verify_password : ℕ → User H → Bool
  verify_password password u = elim (verify password u.password_hash) [ none ↦ false | some b ↦ b ]

  abbrev pub set_password : ℕ → ℕ → ℕ → User H → Option (User H)
  set_password now salt password u = elim (argon2 salt password) [
    | none ↦ none
    | some h ↦ some (record u { password_hash = h; updated_at = now })
  ]

module _ {H : Type 0} where
  abbrev pub update_last_login : ℕ → User H → User H
  update_last_login now u = record u { last_login = some now }

  abbrev pub regenerate_api_key : ℕ → ℕ → User H → User H
  regenerate_api_key now key u = record u { api_key = some key; updated_at = now }

  abbrev pub has_wallet_access : ℕ → User H → Bool
  has_wallet_access wallet u = if is_admin u.role then true else contains u.wallets wallet

  abbrev pub has_active_subscription : ℕ → User H → Bool
  has_active_subscription now u = elim u.subscription [ none ↦ false | some s ↦ is_active now s ]

  abbrev pub update_subscription : ℕ → SubscriptionLevel → ℕ → User H → User H
  update_subscription now level days u = record u {
    subscription = some (renewed now level days u.subscription);
    updated_at = now;
  }

  abbrev pub add_wallet : ℕ → ℕ → User H → User H
  add_wallet now wallet u =
      if not (contains u.wallets wallet)
      then record u { wallets = push u.wallets wallet; updated_at = now }
      else u

  abbrev pub remove_wallet : ℕ → ℕ → User H → User H
  remove_wallet now wallet u = record u { wallets = without wallet u.wallets; updated_at = now }

  abbrev pub to_user_info : User H → UserInfo
  to_user_info u = record {
    username = u.username;
    email = u.email;
    role = first_or user_name u.roles;
    wallets = u.wallets;
    last_login = u.last_login;
  }
