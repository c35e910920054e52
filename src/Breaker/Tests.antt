-- ===== src/Breaker/Tests.antt =====
-- Tests of the circuit breaker: a threshold of two, failures an hour apart, a wait of five minutes.
use diamond_bot_v.Base.{ℕ, ◌≡◌, refl, false, true, List, [], ◌∷◌, arith}
use diamond_bot_v.Breaker.{
  CircuitBreakerState, closed, open_, CircuitBreaker, CircuitBreakerConfig, new, half_open_after,
  can_execute, trip, record_failure, record_success, reset, get_state,
}
use diamond_bot_v.Breaker.History.{fails, here, next, open_lets_nothing_through}
use diamond_bot_v.Breaker.Threshold.{calm, Call, run, opens_at_threshold}

abbrev config : CircuitBreakerConfig
config = record {
  error_threshold = 2;
  error_window = 60_000;
  open_duration = 300_000;
  half_open_allowed_requests = 3;
}

abbrev breaker : CircuitBreakerState → ℕ → CircuitBreaker
breaker state errors = record {
  state = state;
  error_count = errors;
  last_error_time = 0;
  last_state_change = 0;
  half_open_requests = 0;
  config = config;
  endpoint_id = 1;
}

abbrev history : List Call
history = Call.fails 1_000 ∷ Call.succeeds 2_000 ∷ Call.fails 3_600_000 ∷ Call.asks 9_000_000 ∷ []

run-history : get_state (run (new 0 1 config) history) ≡ open_
unfolding get_state new record_failure record_success trip can_execute half_open_after
run-history = refl

run-reset :
    can_execute 10 calm (reset 9 (breaker open_ 5))
    ≡ (record (breaker closed 0) { last_state_change = 9 }, true)
unfolding reset can_execute
run-reset = refl

open_lets_nothing_through_example :
    ((record_failure 5 calm (breaker open_ 2)).state ≡ open_)
    × ((can_execute 900_000 calm (record_failure 5 calm (breaker open_ 2))).1 ≡ false)
open_lets_nothing_through_example =
    open_lets_nothing_through (breaker open_ 2) (record_failure 5 calm (breaker open_ 2)) 900_000
      calm (next here (fails 5 calm)) refl

opens_at_threshold_example : (run (new 0 1 config) history).state ≡ open_
opens_at_threshold_example = opens_at_threshold 0 1 config history (omega arith)
