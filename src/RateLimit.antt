-- ===== src/RateLimit.antt =====
-- The rate limiter of the HTTP services, common/src/middleware/rate_limit.rs: fixed windows by key in
-- one shared cache. The write lock makes each check atomic; the clock's seconds are arguments.
pub mod Window
mod Tests
use diamond_bot_v.Base.{
  ℕ, ◌+◌, ◌-◌, ◌%◌, ◌^◌, Bool, true, false, Option, none, some, ltb, leb, if◌then◌else◌, Dict,
  lookup, insert, retain,
}
use diamond_bot_v.Near.{u64_size}

abbrev pub Key : Type 0
Key = ℕ

pub record RateLimitData : Type 0 where
  pub count : ℕ
  pub window_start : ℕ

abbrev pub Cache : Type 0
Cache = Dict RateLimitData

-- `now - start` on u64, which wraps around in a release build of the services.
abbrev pub elapsed : ℕ → ℕ → ℕ
elapsed now start = (now + u64_size - start) % u64_size

-- The entry that an admitted request writes; none for a request over the limit.
pub admit : ℕ → ℕ → ℕ → Option RateLimitData → Option RateLimitData
admit now limit window_size none = some (record { count = 1; window_start = now })
admit now limit window_size (some data_) =
    if leb window_size (elapsed now data_.window_start)
    then some (record { count = 1; window_start = now })
    else if ltb data_.count limit
    then some (record data_ { count = (data_.count + 1) % u64_size })
    else none

pub check_rate_limit : ℕ → Key → ℕ → ℕ → Cache → Bool × Cache
unfolding admit
check_rate_limit now key limit window_size cache =
    elim (admit now limit window_size (lookup key cache)) [
      | none ↦ (false, cache)
      | some entry ↦ (true, insert key entry cache)
    ]

pub record RateLimiter : Type 0 where
  pub window_size : ℕ
  pub cleanup_interval : ℕ
  pub last_cleanup : ℕ

pub new : ℕ → ℕ → ℕ → RateLimiter
new now window_size cleanup_interval = record {
  window_size = window_size;
  cleanup_interval = cleanup_interval;
  last_cleanup = now;
}

pub cleanup : ℕ → RateLimiter → Cache → Cache
cleanup now limiter cache =
    retain (λ e. ltb (elapsed now e.1.window_start) limiter.window_size) cache

-- The clock is read three times: for the check, for the interval, and by the cleanup.
pub check_limit : ℕ → ℕ → ℕ → Key → ℕ → RateLimiter → Cache → Bool × RateLimiter × Cache
unfolding check_rate_limit cleanup
check_limit checked now cleaned key limit limiter cache =
    let (result, written) = check_rate_limit checked key limit limiter.window_size cache in
    if ltb limiter.cleanup_interval (elapsed now limiter.last_cleanup)
    then (result, record limiter { last_cleanup = now }, cleanup cleaned limiter written)
    else (result, limiter, written)
