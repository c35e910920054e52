-- ===== src/Rpc/Retrying.antt =====
-- `retry_blockchain_operation`. What the operation answers, when it is called for the n-th time, from 0
-- on, with a gas price, is a function. `none` means that the fuel ran out.
use diamond_bot_v.Base.{
  ℕ, zero, suc, ◌+◌, ◌*◌, ◌%◌, ◌^◌, Bool, ◌||◌, not, Option, none, some, List, [], ◌∷◌, ltb, leb,
  ◌==◌, if◌then◌else◌,
}
use diamond_bot_v.Words.{◌>>=◌}
use diamond_bot_v.Texts.{Text}
use diamond_bot_v.Rpc.Errors.{BlockchainError, classify, is_retryable, adjust_gas_for_retry}

pub data Reply (T : Type 0) : Type 0 where
  ok : T → Reply T
  err : Text → Reply T

pub data Outcome (T : Type 0) : Type 0 where
  returned : T → Outcome T
  failed : BlockchainError → Outcome T
  panicked : Outcome T

-- The gas prices of the calls that were made, the waits between them in milliseconds, and the outcome.
pub record Trace (T : Type 0) : Type 0 where
  pub prices : List (Option ℕ)
  pub waits : List ℕ
  pub outcome : Outcome T

abbrev pub wait_time : ℕ → ℕ
wait_time retries =
    let t = retries * retries % 2 ^ 64 * 500 % 2 ^ 64 in if ltb 30_000 t then 30_000 else t

-- `none` is a panic.
abbrev pub next_price : BlockchainError → Option ℕ → Option (Option ℕ)
next_price e none = some none
next_price e (some price) = do p ← adjust_gas_for_retry e price; some (some p)

abbrev pub or_three : ℕ → ℕ
or_three n = if n == 0 then 3 else n

abbrev pub stops : ℕ → ℕ → BlockchainError → Bool
stops max_retries retries e = leb max_retries retries || not (is_retryable e)

module _ {T : Type 0} where
  abbrev pub ends : Option ℕ → Outcome T → Trace T
  ends price outcome = record { prices = price ∷ []; waits = []; outcome = outcome }

  -- A call before what follows it.
  abbrev pub called : Option ℕ → ℕ → Option (Trace T) → Option (Trace T)
  called price wait none = none
  called price wait (some t) = some (record t { prices = price ∷ t.prices; waits = wait ∷ t.waits })

  -- After a failure that is tried again.
  abbrev pub again :
      Option (Option ℕ) → Option ℕ → ℕ → (Option ℕ → Option (Trace T)) → Option (Trace T)
  again none price wait rest = some (ends price panicked)
  again (some price') price wait rest = called price wait (rest price')

  abbrev pub after_reply :
      Reply T → ℕ → ℕ → Option ℕ → (Option ℕ → Option (Trace T)) → Option (Trace T)
  after_reply (ok t) max_retries retries price rest = some (ends price (returned t))
  after_reply (err s) max_retries retries price rest =
      if stops max_retries (retries + 1) (classify s)
      then some (ends price (failed (classify s)))
      else again (next_price (classify s) price) price (wait_time (retries + 1)) rest

  module _ (f : ℕ → Option ℕ → Reply T) (max_retries : ℕ) where
    unfoldable pub retry_loop : ℕ → ℕ → Option ℕ → Option (Trace T)
    retry_loop zero retries price = none
    retry_loop (suc fuel) retries price =
        after_reply (f retries price) max_retries retries price (retry_loop fuel (retries + 1))

  abbrev pub retry_blockchain_operation : (ℕ → Option ℕ → Reply T) → Option ℕ → ℕ → Option (Trace T)
  retry_blockchain_operation f initial_gas_price max_retries =
      retry_loop f (or_three max_retries) (or_three max_retries) 0 initial_gas_price
