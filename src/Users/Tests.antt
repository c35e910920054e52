-- ===== src/Users/Tests.antt =====
-- Tests of the users, over a hashing that keeps the password and the library it came from.
use diamond_bot_v.Base.{
  ℕ, ◌≡◌, refl, Bool, true, false, Option, none, some, List, [], ◌∷◌, arith, ◌==◌,
}
use diamond_bot_v.Users.Subscription.{basic, vip, deactivate, reactivate, is_active}
use diamond_bot_v.Users.Account.{
  User, Hashing, registered, regenerate_api_key, has_wallet_access, to_user_info, user_name,
  renewed,
}
use diamond_bot_v.Users.Manager as Manager
use diamond_bot_v.Users.Manager.{
  UserManager, File, absent, holds, written, refused, torn, ok, err, invalid_credentials,
  unreadable, unwritable, no_subscription, add_user, authenticate, change_password, get_user,
  get_user_by_username, get_user_by_email, get_all_users, get_user_subscription, delete_user,
  any_user, collides,
}
use diamond_bot_v.Users.History.{
  Call, adds, logs_in_as, resets_password, updates, assigns, unassigns, subscribes, deletes, run,
}
use diamond_bot_v.Users.Names.{IsIndexed, run-IsIndexed, run_finds_users}
use diamond_bot_v.Users.Passwords.{changed_password_locks_out}
use diamond_bot_v.Users.Files.{restart_finds_users}

abbrev sample_verify : ℕ → Bool × ℕ → Option Bool
sample_verify q (true, p) = some (p == q)
sample_verify q (false, p) = none

abbrev same_password :
    (n p : ℕ) (h : Bool × ℕ) → some (true, p) ≡ some h → sample_verify p h ≡ some true
same_password n p (true, q) e = ground arith
same_password n p (false, q) e = absurd (ground arith)

abbrev other_library :
    (n p q : ℕ) (h : Bool × ℕ) → some (false, p) ≡ some h → sample_verify q h ≡ none
other_library n p q (true, r) e = absurd (ground arith)
other_library n p q (false, r) e = refl

abbrev hashing : Hashing (Bool × ℕ)
hashing = record {
  bcrypt = λ salt p. some (true, p);
  argon2 = λ salt p. some (false, p);
  verify = sample_verify;
  verify-bcrypt = λ salt p h e. same_password salt p h e;
  verify-argon2 = λ salt p q h e. other_library salt p q h e;
}

abbrev alice : User (Bool × ℕ)
alice = registered 1_000 21 31 50 60 (true, 777)

abbrev nobody : UserManager (Bool × ℕ)
nobody = record { users = []; path = 5 }

abbrev with_alice : UserManager (Bool × ℕ)
with_alice = record { users = (21, alice) ∷ []; path = 5 }

abbrev history : List (Call (Bool × ℕ))
history =
    adds written alice
    ∷ assigns 1_001 21 90 refused
    ∷ assigns 1_002 21 91 written
    ∷ unassigns 1_003 21 90 written
    ∷ subscribes 1_004 21 vip 30 written
    ∷ logs_in_as 1_005 50 777 written
    ∷ []

abbrev history_written : List (Call (Bool × ℕ))
history_written =
    adds written alice
    ∷ updates 1_001 21 (regenerate_api_key 1_001 32) written
    ∷ deletes 7 written
    ∷ []

nobody-IsIndexed : IsIndexed {H = Bool × ℕ} []
nobody-IsIndexed = record {
  once = tt;
  own_id = λ k u e. absurd (ground arith);
  apart = λ i j u v e f n. absurd (ground arith);
}

with_alice-IsIndexed : IsIndexed ((21, alice) ∷ [])
unfolding run
with_alice-IsIndexed =
    run-IsIndexed hashing (nobody, absent) (adds written alice ∷ []) (tt, tt) nobody-IsIndexed

run-deactivate :
    (is_active 5 (deactivate (renewed 2 basic 1 none)) ≡ false)
    × (is_active 5 (reactivate (deactivate (renewed 2 basic 1 none))) ≡ true)
run-deactivate = (refl, refl)

abbrev after : UserManager (Bool × ℕ)
after = (run hashing (nobody, absent) history).0

abbrev alice_later : User (Bool × ℕ)
alice_later = elim (get_user 21 after) [ none ↦ alice | some u ↦ u ]

alice_stays : get_user 21 after ≡ some alice_later
unfolding run
alice_stays = refl

run_finds_users_example :
    (alice_later.id ≡ 21)
    × (get_user_by_username alice_later.username after ≡ some alice_later)
    × (get_user_by_email alice_later.email after ≡ some alice_later)
run_finds_users_example =
    run_finds_users hashing (nobody, absent) history 21 alice_later
      (tt, (tt, (tt, (tt, (tt, (tt, tt)))))) nobody-IsIndexed alice_stays

abbrev new_password_set : UserManager (Bool × ℕ)
new_password_set = (change_password hashing 2_000 8 50 777 778 written with_alice absent).1.0

password_changes :
    change_password hashing 2_000 8 50 777 778 written with_alice absent
    ≡ (ok tt, (new_password_set, holds new_password_set.users))
password_changes = refl

changed_password_locks_out_example :
    (authenticate hashing 3_000 50 778 written
      (run hashing
        (new_password_set, holds new_password_set.users)
        (resets_password 2_500 9 21 778 written ∷ [])).0
      (run hashing
        (new_password_set, holds new_password_set.users)
        (resets_password 2_500 9 21 778 written ∷ [])).1)
    ≡ (
      err invalid_credentials,
      run hashing
          (new_password_set, holds new_password_set.users)
          (resets_password 2_500 9 21 778 written ∷ []),
    )
changed_password_locks_out_example =
    changed_password_locks_out hashing 2_000 8 777 778 21 3_000 778 alice written written with_alice
      absent (new_password_set, holds new_password_set.users)
      (resets_password 2_500 9 21 778 written ∷ []) with_alice-IsIndexed refl password_changes
      (tt, tt) ((λ e. absurd (ground arith)), tt)

abbrev first : UserManager (Bool × ℕ)
first = record { users = (7, Manager.default_admin hashing 1 7 8 (true, 123)) ∷ []; path = 5 }

restart_finds_users_example :
    Manager.new hashing 5 9_000 1 2 3 written
      (run hashing (first, holds first.users) history_written).1
    ≡ (
      ok (record {
        users = (run hashing (first, holds first.users) history_written).0.users;
        path = 5;
      }),
      (run hashing (first, holds first.users) history_written).1,
    )
restart_finds_users_example =
    restart_finds_users hashing 5 1 7 8 9 9_000 1 2 3 written first (holds first.users)
      history_written refl (refl, (refl, (refl, tt)))

run-to_user_info :
    ((to_user_info alice_later).role ≡ user_name)
    × (get_all_users with_alice ≡ alice ∷ [])
    × (has_wallet_access 91 alice_later ≡ true)
unfolding run
run-to_user_info = (refl, refl, refl)

run-get_user_subscription :
    get_user_subscription 50
      (record { users = (21, record alice { subscription = none }) ∷ []; path = 5 })
    ≡ err no_subscription
run-get_user_subscription = refl
