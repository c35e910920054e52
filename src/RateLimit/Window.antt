-- ===== src/RateLimit/Window.antt =====
-- How many requests a window admits, and that the cleanup changes no answer.
use diamond_bot_v.Base.{
  ℕ, ◌+◌, ◌≤◌, ◌<◌, ◌≡◌, ◌≢◌, ◌⊎◌, refl, inl, inr, none, some, List, [], ◌∷◌, arith, ltb, leb, ◌==◌,
  if◌then◌else◌, lookup, HasDistinctKeys,
}
use diamond_bot_v.Near.{u64_size}
use diamond_bot_v.RateLimit.{
  Key, RateLimitData, RateLimiter, Cache, elapsed, admit, check_rate_limit, cleanup,
}

pub record Request : Type 0 where
  pub now : ℕ
  pub key : Key
  pub limit : ℕ
  pub window_size : ℕ

-- How many requests of a key there are, and how many of them are admitted, those of other keys being
-- served in between.
abbrev pub requests : Key → List Request → ℕ
requests k [] = 0
requests k (r ∷ rs) = (if r.key == k then 1 else 0) + requests k rs

pub admitted : Key → List Request → Cache → ℕ
admitted k [] cache = 0
admitted k (r ∷ rs) cache =
    let (result, cache') = check_rate_limit r.now r.key r.limit r.window_size cache in
    (if r.key == k then if result then 1 else 0 else 0) + admitted k rs cache'

-- A request is of another key, or has this limit and window and comes within the window from `start`.
abbrev pub Within : Key → ℕ → ℕ → ℕ → Request → Type 0
Within k limit window start r =
    (r.key ≢ k)
    ⊎ ((r.key ≡ k)
        × (r.limit ≡ limit)
        × (r.window_size ≡ window)
        × (start ≤ r.now)
        × (r.now < start + window)
        × (r.now < u64_size))

abbrev pub AllWithin : Key → ℕ → ℕ → ℕ → List Request → Type 0
AllWithin k limit window start [] = Unit
AllWithin k limit window start (r ∷ rs) =
    Within k limit window start r × AllWithin k limit window start rs

-- `min` and `max`.
abbrev pub at_most : ℕ → ℕ → ℕ
at_most n m = if leb n m then n else m

lookup-cleanup :
    (now : ℕ) (limiter : RateLimiter) (k : Key) (cache : Cache)
    → HasDistinctKeys cache
    → lookup k (cleanup now limiter cache) ≡ elim (lookup k cache) [
      | none ↦ none
      | some d ↦ if ltb (elapsed now d.window_start) limiter.window_size then some d else none
    ]
unfolding cleanup
lookup-cleanup now limiter k [] u = refl
lookup-cleanup now limiter k ((j, d) ∷ cache) u =
    ground (arith, lookup-cleanup now limiter k cache u.1)

-- A cleanup of the same window's size does not change the answer of any later check: for a key whose
-- window started by the time of the cleanup, or that has no entry.
pub cleanup_keeps_answer :
    (now later limit : ℕ) (limiter : RateLimiter) (k : Key) (cache : Cache)
    → HasDistinctKeys cache
    → (lookup k cache ≡ none)
      ⊎ ((d : RateLimitData) × (lookup k cache ≡ some d) × (d.window_start ≤ now))
    → now ≤ later
    → later < u64_size
    → (check_rate_limit later k limit limiter.window_size (cleanup now limiter cache)).0
      ≡ (check_rate_limit later k limit limiter.window_size cache).0
unfolding check_rate_limit admit
cleanup_keeps_answer now later limit limiter k cache u (inl e) p q =
    ground (arith, lookup-cleanup now limiter k cache u)
cleanup_keeps_answer now later limit limiter k cache u (inr (d, e, s)) p q =
    ground (arith, lookup-cleanup now limiter k cache u)
