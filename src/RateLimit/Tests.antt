-- ===== src/RateLimit/Tests.antt =====
-- Tests of the rate limiter.
use diamond_bot_v.Base.{ℕ, ◌≡◌, refl, true, false, [], ◌∷◌}
use diamond_bot_v.RateLimit.{RateLimitData, new, admit, check_rate_limit, cleanup, check_limit}
use diamond_bot_v.RateLimit.Window.{Request}

abbrev request : ℕ → ℕ → Request
request now key = record { now = now; key = key; limit = 2; window_size = 60 }

abbrev entry : ℕ → ℕ → RateLimitData
entry count window_start = record { count = count; window_start = window_start }

-- Key 1 has used up its window at 140; the next check starts one, and the cleanup drops key 2.
run-check_limit :
    check_limit 161 161 161 1 2 (new 100 60 50) ((1, entry 2 100) ∷ (2, entry 1 90) ∷ [])
    ≡ (true, record (new 100 60 50) { last_cleanup = 161 }, (1, entry 1 161) ∷ [])
unfolding check_limit check_rate_limit admit cleanup new
run-check_limit = refl

run-full : (check_rate_limit 140 1 2 60 ((1, entry 2 100) ∷ [])).0 ≡ false
unfolding check_rate_limit admit
run-full = refl
