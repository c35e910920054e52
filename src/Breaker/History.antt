-- ===== src/Breaker/History.antt =====
-- The circuit breaker over its histories, as a step relation: no circuit gets half open, and one that
-- is open stays open until it is reset.
use diamond_bot_v.Base.{ℕ, ◌≡◌, ◌⊎◌, refl, inl, inr, false, arith}
use diamond_bot_v.Breaker.{
  closed, open_, CircuitBreaker, CircuitBreakerConfig, Contention, new, half_open_after,
  can_execute, trip, record_failure, record_success, reset,
}

-- The calls of a breaker: whether it may execute, with the answer, and the reports.
pub data Step : CircuitBreaker → CircuitBreaker → Type 0 where
  asks : {b : CircuitBreaker} (now : ℕ) (c : Contention) → Step b (can_execute now c b).0
  fails : {b : CircuitBreaker} (now : ℕ) (c : Contention) → Step b (record_failure now c b)
  succeeds : {b : CircuitBreaker} (now : ℕ) → Step b (record_success now b)

pub data Reach (b : CircuitBreaker) : CircuitBreaker → Type 0 where
  start : Reach b b
  later : {x y : CircuitBreaker} → Reach b x → Step x y → Reach b y
  resets : {x : CircuitBreaker} (now : ℕ) → Reach b x → Reach b (reset now x)

-- As `Reach`, without resets.
pub data Runs (b : CircuitBreaker) : CircuitBreaker → Type 0 where
  here : Runs b b
  next : {x y : CircuitBreaker} → Runs b x → Step x y → Runs b y

Step-open : {x y : CircuitBreaker} → Step x y → x.state ≡ open_ → y.state ≡ open_
unfolding can_execute half_open_after record_failure record_success
Step-open {x} (asks now c) h = ground arith
Step-open {x} (fails now c) h = ground arith
Step-open {x} (succeeds now) h = ground arith

Step-closed :
    {x y : CircuitBreaker} → Step x y → x.state ≡ closed → (y.state ≡ closed) ⊎ (y.state ≡ open_)
unfolding can_execute half_open_after record_failure record_success trip
Step-closed {x} (asks now c) h = ground arith
Step-closed {x} (fails now c) h = ground arith
Step-closed {x} (succeeds now) h = ground arith

-- From a new breaker on, whatever its threads do and whichever tries fail, resets included, the
-- circuit is closed or open: it never gets half open.
pub Reach-never_half_open :
    (now endpoint : ℕ) (config : CircuitBreakerConfig) (b : CircuitBreaker)
    → Reach (new now endpoint config) b
    → (b.state ≡ closed) ⊎ (b.state ≡ open_)
unfolding new reset
Reach-never_half_open now endpoint config b start = inl refl
Reach-never_half_open now endpoint config b (later r st) =
    elim (Reach-never_half_open now endpoint config _ r) [
      | inl is_closed ↦ Step-closed st is_closed
      | inr is_open ↦ inr (Step-open st is_open)
    ]
Reach-never_half_open now endpoint config b (resets t r) = inl refl

Runs-open : {x y : CircuitBreaker} → Runs x y → x.state ≡ open_ → y.state ≡ open_
Runs-open here h = h
Runs-open (next r st) h = Step-open st (Runs-open r h)

-- Once the circuit is open, no call but a reset ends that: however long it has been open, it stays
-- open and lets nothing through.
pub open_lets_nothing_through :
    (x y : CircuitBreaker) (now : ℕ) (c : Contention)
    → Runs x y
    → x.state ≡ open_
    → (y.state ≡ open_) × ((can_execute now c y).1 ≡ false)
unfolding can_execute half_open_after
open_lets_nothing_through x y now c r h = let still = Runs-open r h in (still, ground arith)
