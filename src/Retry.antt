-- ===== src/Retry.antt =====
-- The retry policy, common/src/retry_policy.rs: the loop, its counters and its switches. An operation
-- is what its calls return, by their number. The waits between calls, the clock and the averages are
-- left out: no branch depends on them.
pub mod Loop
mod Tests
use diamond_bot_v.Base.{ℕ, zero, suc, ◌+◌, ◌%◌, ◌^◌, Bool, Option, none, some, leb, if◌then◌else◌}
use diamond_bot_v.Near.{u64_size}

pub record RetryConfig : Type 0 where
  pub max_retries : ℕ
  pub enabled : Bool

pub record RetryMetrics : Type 0 where
  pub total_retries : ℕ
  pub successful_retries : ℕ
  pub failed_retries : ℕ

pub record RetryPolicy : Type 0 where
  pub config : RetryConfig
  pub metrics : RetryMetrics

pub new : RetryConfig → RetryPolicy
new config = record {
  config = config;
  metrics = record { total_retries = 0; successful_retries = 0; failed_retries = 0 };
}

pub data Outcome (A E : Type 0) : Type 0 where
  done : A → Outcome A E
  failed : E → Outcome A E

-- What the loop adds to the counters when it returns.
abbrev pub count_success : ℕ → RetryMetrics → RetryMetrics
count_success retries m = record m {
  total_retries = (m.total_retries + retries) % u64_size;
  successful_retries = (m.successful_retries + 1) % u64_size;
}

abbrev pub count_failure : ℕ → RetryMetrics → RetryMetrics
count_failure retries m = record m {
  total_retries = (m.total_retries + retries) % u64_size;
  failed_retries = (m.failed_retries + 1) % u64_size;
}

-- What `retry` leaves: its result, how often it called the operation, and the counters.
pub record Finished (A E : Type 0) : Type 0 where
  pub result : Outcome A E
  pub calls : ℕ
  pub metrics : RetryMetrics

module _ {A E : Type 0} where
  -- The loop after `retries` retries. It recurses on fuel, and gives nothing where that runs out.
  pub retry_loop : ℕ → ℕ → ℕ → (ℕ → Outcome A E) → RetryMetrics → Option (Finished A E)
  retry_loop zero max_retries retries f m = none
  retry_loop (suc fuel) max_retries retries f m =
      let rest = retry_loop fuel max_retries (retries + 1) f m in
      elim (f retries) [
        | done a ↦
            some
              (record { result = done a; calls = retries + 1; metrics = count_success retries m })
        | failed e ↦
            if leb max_retries retries
            then some (record {
              result = failed e;
              calls = retries + 1;
              metrics = count_failure retries m;
            })
            else rest
      ]

  pub retry : (ℕ → Outcome A E) → RetryPolicy → Option (Finished A E)
  unfolding retry_loop
  retry f p =
      if p.config.enabled
      then retry_loop (p.config.max_retries + 1) p.config.max_retries 0 f p.metrics
      else some (record { result = f 0; calls = 1; metrics = p.metrics })

pub set_enabled : Bool → RetryPolicy → RetryPolicy
set_enabled enabled p = record p { config = record p.config { enabled = enabled } }

pub reconfigure : RetryConfig → RetryPolicy → RetryPolicy
reconfigure config p = record p { config = config }
