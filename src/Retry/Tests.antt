-- ===== src/Retry/Tests.antt =====
-- Tests of the retry policy.
use diamond_bot_v.Base.{ℕ, ◌<◌, ◌≡◌, refl, true, false, some, leb, if◌then◌else◌}
use diamond_bot_v.Retry.{
  RetryPolicy, Outcome, done, failed, Finished, new, retry, retry_loop, set_enabled, reconfigure,
}
use diamond_bot_v.Retry.Loop.{Ends, Failed, retry-Ends}

-- The operation succeeds from its third call on, with the call's number.
abbrev operation : ℕ → Outcome ℕ ℕ
operation n = if leb 2 n then done n else failed 404

abbrev policy : ℕ → RetryPolicy
policy max_retries = record {
  config = record { max_retries = max_retries; enabled = true };
  metrics = record { total_retries = 7; successful_retries = 3; failed_retries = 1 };
}

run-retry :
    retry operation (policy 5)
    ≡ some (record {
      result = done 2;
      calls = 3;
      metrics = record { total_retries = 9; successful_retries = 4; failed_retries = 1 };
    })
unfolding retry retry_loop
run-retry = refl

run-retry_fails :
    retry operation (policy 1)
    ≡ some (record {
      result = failed 404;
      calls = 2;
      metrics = record { total_retries = 8; successful_retries = 3; failed_retries = 2 };
    })
unfolding retry retry_loop
run-retry_fails = refl

-- Without retries the one call's failure is returned, and nothing is counted.
run-disabled :
    retry operation (set_enabled false (reconfigure (policy 5).config (new (policy 1).config)))
    ≡ some (record {
      result = failed 404;
      calls = 1;
      metrics = record { total_retries = 0; successful_retries = 0; failed_retries = 0 };
    })
unfolding retry set_enabled reconfigure new
run-disabled = refl

retry-Ends_example :
    (n : ℕ) × (r : Finished ℕ ℕ) × (retry operation (policy 5) ≡ some r)
    × Ends operation (policy 5) n r
    × ((i : ℕ) → i < n → Failed (operation i))
retry-Ends_example = retry-Ends operation (policy 5) refl
