-- ===== src/Breaker.antt =====
-- The circuit breaker of an endpoint, `CircuitBreaker` in snipebot/src/chain_adapters/retry_policy.rs.
-- Times are milliseconds; so is the `Duration` that `can_execute` compares with a number of
-- milliseconds, which does not compile. A method runs alone but for its tries of a lock: `Contention` says which of
-- them another thread makes fail.
pub mod History
pub mod Threshold
mod Tests
use diamond_bot_v.Base.{
  ℕ, ◌+◌, ◌-◌, ◌%◌, ◌^◌, Bool, true, false, not, ◌||◌, ltb, leb, if◌then◌else◌,
}
use diamond_bot_v.Near.{u64_size}

pub data CircuitBreakerState : Type 0 where
  closed open_ half_open : CircuitBreakerState

pub record CircuitBreakerConfig : Type 0 where
  pub error_threshold : ℕ
  pub error_window : ℕ
  pub open_duration : ℕ
  pub half_open_allowed_requests : ℕ

pub record CircuitBreaker : Type 0 where
  pub state : CircuitBreakerState
  pub error_count : ℕ
  pub last_error_time : ℕ
  pub last_state_change : ℕ
  pub half_open_requests : ℕ
  pub config : CircuitBreakerConfig
  pub endpoint_id : ℕ

-- The tries that fail because of another thread's guard.
pub record Contention : Type 0 where
  pub state_read : Bool
  pub state_write : Bool
  pub change_read : Bool
  pub change_write : Bool
  pub error_write : Bool

-- `try_write` on an `RwLock`: whether this thread has a guard of the lock itself, and whether another
-- thread has one.
abbrev pub try_write : Bool → Bool → Bool
try_write own other = not (own || other)

abbrev pub elapsed : ℕ → ℕ → ℕ
elapsed now start = now - start

pub new : ℕ → ℕ → CircuitBreakerConfig → CircuitBreaker
new now endpoint_id config = record {
  state = closed;
  error_count = 0;
  last_error_time = now;
  last_state_change = now;
  half_open_requests = 0;
  config = config;
  endpoint_id = endpoint_id;
}

-- The branch of `can_execute` for an open circuit. The guards of both `try_read`s, bound by the
-- patterns `Ok(state)` and `Ok(last_change)`, are alive to the end of their arms.
pub half_open_after : ℕ → Contention → CircuitBreaker → CircuitBreaker × Bool
half_open_after now c b =
    if c.change_read
    then (b, false)
    else if leb b.config.open_duration (elapsed now b.last_state_change)
    then (if try_write true c.state_write
        then (if try_write true c.change_write
            then (
              record b { state = half_open; last_state_change = now; half_open_requests = 0 },
              true,
            )
            else (record b { state = half_open }, false))
        else (b, false))
    else (b, false)

-- The branch for a half-open circuit.
abbrev pub count_request : CircuitBreaker → CircuitBreaker × Bool
count_request b = (
  record b { half_open_requests = (b.half_open_requests + 1) % u64_size },
  ltb b.half_open_requests b.config.half_open_allowed_requests,
)

pub can_execute : ℕ → Contention → CircuitBreaker → CircuitBreaker × Bool
unfolding half_open_after
can_execute now c b = if c.state_read then (b, false) else elim b.state [
  | closed ↦ (b, true)
  | open_ ↦ half_open_after now c b
  | half_open ↦ count_request b
]

-- Opening the circuit, in `record_failure`: the guard of its `try_read` is dropped by then.
pub trip : ℕ → Contention → CircuitBreaker → CircuitBreaker
trip now c b =
    if try_write false c.state_write
    then (if try_write false c.change_write
        then record b { state = open_; last_state_change = now }
        else record b { state = open_ })
    else b

pub record_failure : ℕ → Contention → CircuitBreaker → CircuitBreaker
unfolding trip
record_failure now c b =
    let timed = if try_write false c.error_write then record b { last_error_time = now } else b in
    let counted = record timed { error_count = (b.error_count + 1) % u64_size } in
    if c.state_read then counted else elim b.state [
      | closed ↦
          if leb b.config.error_threshold ((b.error_count + 1) % u64_size)
          then trip now c counted
          else counted
      | half_open ↦ trip now c counted
      | open_ ↦ counted
    ]

pub record_success : ℕ → CircuitBreaker → CircuitBreaker
record_success now b = elim b.state [
  | half_open ↦
      if leb b.config.half_open_allowed_requests b.half_open_requests
      then record b { state = closed; last_state_change = now; error_count = 0 }
      else b
  | closed ↦ b
  | open_ ↦ b
]

pub reset : ℕ → CircuitBreaker → CircuitBreaker
reset now b = record b { state = closed; last_state_change = now; error_count = 0 }

pub get_state : CircuitBreaker → CircuitBreakerState
get_state b = b.state
