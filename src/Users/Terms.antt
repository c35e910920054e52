-- ===== src/Users/Terms.antt =====
-- How long a subscription lasts.
use diamond_bot_v.Base.{
  ℕ, ◌+◌, ◌-◌, ◌*◌, ◌^◌, ◌≤◌, ◌<◌, ◌≡◌, inl, inr, refl, true, Option, none, some, arith, ltb,
  if◌then◌else◌, Bool-cases,
}
use diamond_bot_v.Users.Subscription.{Subscription, SubscriptionLevel, is_active, remaining_days}
use diamond_bot_v.Users.Account.{User, renewed, update_subscription, has_active_subscription}

-- The time that is left of a subscription, in seconds.
abbrev pub time_left : ℕ → Option Subscription → ℕ
time_left now none = 0
time_left now (some s) = if is_active now s then s.expiry_date - now else 0

renewed-time_left :
    (now level_days : ℕ) (level : SubscriptionLevel) (o : Option Subscription)
    → now + time_left now o + level_days * 86_400 < 2 ^ 64
    → (renewed now level level_days o).expiry_date ≡ now + time_left now o + level_days * 86_400
renewed-time_left now days level none h = omega arith
renewed-time_left now days level (some s) h = elim (Bool-cases (is_active now s)) [
  | inl e ↦ ground arith
  | inr e ↦ ground arith
]

renewed-active :
    (now days : ℕ) (level : SubscriptionLevel) (o : Option Subscription)
    → (renewed now level days o).active ≡ true
renewed-active now days level none = refl
renewed-active now days level (some s) = ground arith

renewed-level :
    (now days : ℕ) (level : SubscriptionLevel) (o : Option Subscription)
    → (renewed now level days o).level ≡ level
renewed-level now days level none = refl
renewed-level now days level (some s) = ground arith

remaining_days-le :
    (now days : ℕ) (s : Subscription)
    → s.active ≡ true
    → now + days * 86_400 ≤ s.expiry_date
    → days ≤ remaining_days now s
remaining_days-le now days s on h = ground arith

-- A purchase of some days, whose end fits into 64 bits, gives the user the level that was bought, and
-- the subscription is active until exactly the days bought after what was left of it: of a
-- subscription that had lapsed or was deactivated nothing is left. Right after, no fewer days remain
-- than were bought.
pub update_subscription_adds_days :
    {H : Type 0} (now t days : ℕ) (level : SubscriptionLevel) (u : User H)
    → now + time_left now u.subscription + days * 86_400 < 2 ^ 64
    → (has_active_subscription t (update_subscription now level days u)
        ≡ ltb t (now + time_left now u.subscription + days * 86_400))
      × ((renewed now level days u.subscription).level ≡ level)
      × (days ≤ remaining_days now (renewed now level days u.subscription))
update_subscription_adds_days now t days level u h =
    let ends = renewed-time_left now days level u.subscription h in
    let on = renewed-active now days level u.subscription in
    (
      ground (arith, ends, on),
      renewed-level now days level u.subscription,
      remaining_days-le now days (renewed now level days u.subscription) on (omega (arith, ends)),
    )
