-- ===== src/Breaker/Threshold.antt =====
-- When the circuit opens: on the threshold's failure since the last reset, however far apart they are.
use diamond_bot_v.Base.{
  ℕ, ◌+◌, ◌<◌, ◌≡◌, subst, false, List, [], ◌∷◌, leb, ltb, if◌then◌else◌, arith, ◌&&◌,
}
use diamond_bot_v.Near.{u64_size}
use diamond_bot_v.Breaker.{
  CircuitBreakerState, closed, open_, CircuitBreaker, CircuitBreakerConfig, Contention, new,
  half_open_after, can_execute, trip, record_failure, record_success,
}

-- No other thread has a guard.
abbrev pub calm : Contention
calm = record {
  state_read = false;
  state_write = false;
  change_read = false;
  change_write = false;
  error_write = false;
}

pub data Call : Type 0 where
  asks fails succeeds : ℕ → Call

abbrev pub call : Call → CircuitBreaker → CircuitBreaker
call (asks now) b = (can_execute now calm b).0
call (fails now) b = record_failure now calm b
call (succeeds now) b = record_success now b

abbrev pub run : CircuitBreaker → List Call → CircuitBreaker
run b [] = b
run b (c ∷ cs) = run (call c b) cs

abbrev pub failure_of : Call → ℕ
failure_of (fails now) = 1
failure_of c = 0

abbrev pub failures : List Call → ℕ
failures [] = 0
failures (c ∷ cs) = failure_of c + failures cs

-- The state after `n` failures.
abbrev pub state_after : CircuitBreakerConfig → ℕ → CircuitBreakerState
state_after config n = if ltb 0 n && leb config.error_threshold n then open_ else closed

record After (config : CircuitBreakerConfig) (n : ℕ) (b : CircuitBreaker) : Type 0 where
  pub config_is : b.config ≡ config
  pub count_is : b.error_count ≡ n
  pub state_is : b.state ≡ state_after config n

call-After :
    (config : CircuitBreakerConfig) (n : ℕ) (c : Call) (b : CircuitBreaker)
    → n + failure_of c < u64_size
    → After config n b
    → After config (n + failure_of c) (call c b)
unfolding can_execute half_open_after record_failure record_success trip
call-After config n (asks now) b lt a = ground arith
call-After config n (fails now) b lt a = ground arith
call-After config n (succeeds now) b lt a = ground arith

run-After :
    (config : CircuitBreakerConfig) (n : ℕ) (cs : List Call) (b : CircuitBreaker)
    → n + failures cs < u64_size
    → After config n b
    → After config (n + failures cs) (run b cs)
run-After config n [] b lt a = ground (arith, a)
run-After config n (c ∷ cs) b lt a =
    let rest =
      run-After config (n + failure_of c) cs (call c b) (omega arith)
        (call-After config n c b (omega arith) a) in
    subst (λ m. After config m (run (call c b) cs)) (omega arith) rest

-- Without contention, a new circuit is open after a history exactly if there were failures, and at
-- least as many as the threshold. Neither the times of the failures nor the successes matter.
pub opens_at_threshold :
    (now endpoint : ℕ) (config : CircuitBreakerConfig) (cs : List Call)
    → failures cs < u64_size
    → (run (new now endpoint config) cs).state ≡ state_after config (failures cs)
unfolding new
opens_at_threshold now endpoint config cs lt =
    let after = run-After config 0 cs (new now endpoint config) (omega arith) (ground arith) in
    ground (arith, after)
