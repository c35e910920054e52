-- ===== src/Errors/Keywords.antt =====
-- What the words of a message decide.
use diamond_bot_v.Base.{◌≡◌, ◌≢◌, ◌⊎◌, refl, true, arith, inl, inr}
use diamond_bot_v.Texts.{Text, codes, has, has-has}
use diamond_bot_v.Errors.Classify.{
  classify_lower, classify_blockchain_error, connection_error, insufficient_gas, slippage_error,
}
use diamond_bot_v.Errors.Recovery.{get_recovery_info, emergency_sell, abort_transaction}

abbrev SlippageOrGas : Text → Text → Type 0
SlippageOrGas s msg =
    (classify_lower s msg ≡ insufficient_gas msg) ⊎ (classify_lower s msg ≡ slippage_error msg)

k-SlippageOrGas : (s msg : Text) → has (codes "k") s ≡ true → SlippageOrGas s msg
unfolding classify_lower
k-SlippageOrGas s msg k = ground arith

-- Whatever a message says: if in lower case it has any word with the letter k in it, such as "token",
-- "network" or "block", the advice is to retry, and never to sell or to give up.
pub word_with_k_retries :
    (to_lowercase : Text → Text) (word msg : Text)
    → has word (to_lowercase msg) ≡ true
    → has (codes "k") word ≡ true
    → let info = get_recovery_info (classify_blockchain_error to_lowercase msg) in
      (info.should_retry ≡ true)
      × (info.suggested_action ≢ emergency_sell)
      × (info.suggested_action ≢ abort_transaction)
unfolding get_recovery_info
word_with_k_retries to_lowercase word msg h k =
    elim (k-SlippageOrGas (to_lowercase msg) msg (has-has b'k' word (to_lowercase msg) h k)) [
      | inl e ↦ rw e (refl, (cc), (cc))
      | inr e ↦ rw e (refl, (cc), (cc))
    ]

-- A message that speaks of a timeout is never classified as a connection error, although the
-- test for connection errors looks for that word too.
pub timeout_no_connection :
    (to_lowercase : Text → Text) (msg m : Text)
    → has (codes "timeout") (to_lowercase msg) ≡ true
    → classify_blockchain_error to_lowercase msg ≢ connection_error m
unfolding classify_lower
timeout_no_connection to_lowercase msg m h e = ground arith
