-- ===== src/Users/Change.antt =====
-- What the methods of the manager may do to the users.
use diamond_bot_v.Base.{
  ℕ, ◌≡◌, ◌⊎◌, inl, inr, refl, sym, ap, ◌∙◌, false, Option, none, some, arith, Dict, lookup, insert,
  erase, Option-cases, Bool-cases,
}
use diamond_bot_v.Users.Account.{User, Hashing, set_password, update_last_login}
use diamond_bot_v.Users.Manager.{
  UserManager, File, Write, written, refused, torn, saved, put, any_user, collides, add_user,
  changed, change_at, change_user, delete_at, login_found, login_at, change_found,
}

module _ {H : Type 0} (hashing : Hashing H) where
  open hashing use {verify, argon2, verify-argon2}

  -- Nothing that is typed logs in to the account: its hash is not one of bcrypt's.
  abbrev pub IsLocked : User H → Type 0
  IsLocked u = (q : ℕ) → verify q u.password_hash ≡ none

  -- A change of one account: who it is stays, and a new hash is one of argon2's.
  pub record Edit (u v : User H) : Type 0 where
    pub same_id : v.id ≡ u.id
    pub same_username : v.username ≡ u.username
    pub same_email : v.email ≡ u.email
    pub hash : (v.password_hash ≡ u.password_hash) ⊎ IsLocked v

  -- What a call may do to the users.
  pub data Change (touched : Option ℕ) (d d' : Dict (User H)) : Type 0 where
    kept : d' ≡ d → Change touched d d'
    edited :
        (i : ℕ) (u v : User H)
        → lookup i d ≡ some u
        → Edit u v
        → d' ≡ insert i v d
        → Change touched d d'
    added :
        (u : User H)
        → touched ≡ some u.id
        → any_user (collides u) d ≡ false
        → d' ≡ insert u.id u d
        → Change touched d d'
    removed : (i : ℕ) → touched ≡ some i → d' ≡ erase i d → Change touched d d'

  -- What is put is in memory, whether or not the file could be written.
  pub saved-users :
      {A : Type 0} (w : Write) (a : A) (m : UserManager H) (file : File H)
      → (saved w a m file).1.0.users ≡ m.users
  saved-users written a m file = refl
  saved-users refused a m file = refl
  saved-users torn a m file = refl

  pub IsEdit : (User H → Option (User H)) → Type 0
  IsEdit f = (u v : User H) → f u ≡ some v → Edit u v

  change_at-Change :
      (o : Option (User H)) (id : ℕ) (f : User H → Option (User H)) (w : Write) (m : UserManager H)
      (file : File H)
      → lookup id m.users ≡ o
      → IsEdit f
      → Change none m.users (change_at o id f w m file).1.0.users
  unfolding IsEdit
  change_at-Change none id f w m file e h = kept refl
  change_at-Change (some u) id f w m file e h = elim (Option-cases (f u)) [
    | inl n ↦ kept (ap (λ o. (changed id o w m file).1.0.users) n)
    | inr (v, n) ↦
        edited id u v e (h u v n)
          (ap (λ o. (changed id o w m file).1.0.users) n ∙ saved-users w tt (put id v m) file)
  ]

  kept_hash :
      {u v : User H}
      → v.id ≡ u.id
      → v.username ≡ u.username
      → v.email ≡ u.email
      → v.password_hash ≡ u.password_hash
      → Edit u v
  kept_hash i n e h = record { same_id = i; same_username = n; same_email = e; hash = inl h }

  hashed-Edit :
      (now salt new : ℕ) (u v : User H) (o : Option H)
      → argon2 salt new ≡ o
      → elim o [ none ↦ none | some h ↦ some (record u { password_hash = h; updated_at = now }) ]
        ≡ some v
      → Edit u v
  hashed-Edit now salt new u v none e h = absurd (ground arith)
  hashed-Edit now salt new u v (some k) e h = record {
    same_id = ground arith;
    same_username = ground arith;
    same_email = ground arith;
    hash = inr (λ q. ap (λ x. verify q x) (ground arith) ∙ verify-argon2 salt new q k e);
  }

  pub set_password-IsEdit : (now salt new : ℕ) → IsEdit (set_password hashing now salt new)
  unfolding IsEdit
  set_password-IsEdit now salt new u v h = hashed-Edit now salt new u v (argon2 salt new) refl h

  -- Any change that keeps the identity.
  pub total-IsEdit :
      (f : User H → User H)
      → ((u : User H)
          → ((f u).id ≡ u.id)
            × ((f u).username ≡ u.username)
            × ((f u).email ≡ u.email)
            × ((f u).password_hash ≡ u.password_hash))
      → IsEdit (λ u. some (f u))
  unfolding IsEdit
  total-IsEdit f keeps u v h =
      let (i, n, e, p) = keeps u in
      let is : f u ≡ v = ground arith in
      record {
        same_id = sym (ap (λ x. x.id) is) ∙ i;
        same_username = sym (ap (λ x. x.username) is) ∙ n;
        same_email = sym (ap (λ x. x.email) is) ∙ e;
        hash = inl (sym (ap (λ x. x.password_hash) is) ∙ p);
      }

  pub total-Edit :
      (f : User H → User H)
      → ((u : User H)
          → ((f u).id ≡ u.id)
            × ((f u).username ≡ u.username)
            × ((f u).email ≡ u.email)
            × ((f u).password_hash ≡ u.password_hash))
      → (u : User H) → Edit u (f u)
  unfolding IsEdit
  total-Edit f keeps u = total-IsEdit f keeps u (f u) refl

  pub change_user-Change :
      (id : ℕ) (f : User H → Option (User H)) (w : Write) (m : UserManager H) (file : File H)
      → IsEdit f
      → Change none m.users (change_user id f w m file).1.0.users
  change_user-Change id f w m file h = change_at-Change (lookup id m.users) id f w m file refl h

  login_at-Change :
      (id now : ℕ) (o : Option (User H)) (w : Write) (m : UserManager H) (file : File H)
      → lookup id m.users ≡ o
      → Change none m.users (login_at hashing o id now w m file).1.0.users
  login_at-Change id now none w m file e = kept refl
  login_at-Change id now (some u) w m file e =
      edited id u (update_last_login now u) e (kept_hash refl refl refl refl)
        (saved-users w (update_last_login now u) (put id (update_last_login now u) m) file)

  pub delete_at-Change :
      (id : ℕ) (o : Option (User H)) (w : Write) (m : UserManager H) (file : File H)
      → Change (some id) m.users (delete_at o id w m file).1.0.users
  delete_at-Change id none w m file = kept refl
  delete_at-Change id (some u) w m file =
      removed id refl (saved-users w tt (record m { users = erase id m.users }) file)

  pub add_user-Change :
      (w : Write) (u : User H) (m : UserManager H) (file : File H)
      → Change (some u.id) m.users (add_user w u m file).1.0.users
  add_user-Change w u m file = elim (Bool-cases (any_user (collides u) m.users)) [
    | inl e ↦ kept (rw e refl)
    | inr e ↦ added u refl e (rw e (saved-users w tt (put u.id u m) file))
  ]

  pub login_found-Change :
      (now : ℕ) (o : Option (User H)) (w : Write) (m : UserManager H) (file : File H)
      → Change none m.users (login_found hashing o now w m file).1.0.users
  login_found-Change now none w m file = kept refl
  login_found-Change now (some u) w m file =
      login_at-Change u.id now (lookup u.id m.users) w m file refl

  pub change_found-Change :
      (now salt new : ℕ) (o : Option (User H)) (w : Write) (m : UserManager H) (file : File H)
      → Change none m.users (change_found hashing o now salt new w m file).1.0.users
  change_found-Change now salt new none w m file = kept refl
  change_found-Change now salt new (some u) w m file =
      change_user-Change u.id (set_password hashing now salt new) w m file
        (set_password-IsEdit now salt new)
