-- ===== src/MessageQueue/Scores.antt =====
-- The order that the scores give the messages of a queue.
use diamond_bot_v.Base.{ℕ, ◌+◌, ◌*◌, refl, ◌≤◌, ◌<◌, ◌≡◌, arith}
use diamond_bot_v.MessageQueue.{
  MessagePriority, low, normal, high, critical, base_score, send_score, requeue_score,
}

abbrev pub Below : MessagePriority → MessagePriority → Type 0
Below p q = base_score p < base_score q

hundreds : (p : MessagePriority) → (n : ℕ) × (base_score p ≡ n * 100)
hundreds low = (0, refl)
hundreds normal = (1, refl)
hundreds high = (2, refl)
hundreds critical = (3, refl)

Below-gap : (p q : MessagePriority) → Below p q → base_score p + 100 ≤ base_score q
Below-gap p q h = omega (arith, (hundreds p).1, (hundreds q).1, h)

-- A message of a higher priority, sent or put back after fewer than five deliveries, is taken before
-- one of a lower priority that was sent up to 50,000 seconds later. Of two messages of one priority
-- the one that was sent later is not behind.
pub send_score_order :
    (p q : MessagePriority) (early late retries : ℕ)
    → Below p q
    → early ≤ late
    → late ≤ early + 50_000
    → retries < 5
    → (send_score p late < requeue_score q retries early)
      × (requeue_score q retries early ≤ send_score q early)
      × (send_score p early ≤ send_score p late)
send_score_order p q early late retries h le near few =
    let gap = Below-gap p q h in (omega arith, omega arith, omega arith)
