-- ===== src/Users/Subscription.antt =====
-- `Subscription` of common/src/user.rs. The time is in seconds, and the sums are those of `u64`.
use diamond_bot_v.Base.{ℕ, ◌+◌, ◌-◌, ◌*◌, ◌/◌, ◌%◌, ◌^◌, Bool, true, false, not, ltb, if◌then◌else◌}

pub data SubscriptionLevel : Type 0 where
  free basic premium vip : SubscriptionLevel

pub record Subscription : Type 0 where
  pub level : SubscriptionLevel
  pub start_date : ℕ
  pub expiry_date : ℕ
  pub active : Bool

-- `u64` arithmetic, as a release build does it.
abbrev pub u64 : ℕ → ℕ
u64 n = n % 2 ^ 64

abbrev pub new : ℕ → SubscriptionLevel → ℕ → Subscription
new now level duration_days = record {
  level = level;
  start_date = now;
  expiry_date = u64 (now + u64 (duration_days * 86_400));
  active = true;
}

abbrev pub is_active : ℕ → Subscription → Bool
is_active now s = if not s.active then false else ltb now s.expiry_date

abbrev pub extend : ℕ → ℕ → Subscription → Subscription
extend now days s =
    if ltb s.expiry_date now
    then record s { start_date = now; expiry_date = u64 (now + u64 (days * 86_400)); active = true }
    else record s { expiry_date = u64 (s.expiry_date + u64 (days * 86_400)); active = true }

abbrev pub update_level : SubscriptionLevel → Subscription → Subscription
update_level level s = record s { level = level }

abbrev pub remaining_days : ℕ → Subscription → ℕ
remaining_days now s =
    if not (is_active now s)
    then 0
    else (if not (ltb now s.expiry_date) then 0 else (s.expiry_date - now) / 86_400)

abbrev pub deactivate : Subscription → Subscription
deactivate s = record s { active = false }

abbrev pub reactivate : Subscription → Subscription
reactivate s = record s { active = true }
