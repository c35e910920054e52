-- ===== src/Errors/Tests.antt =====
-- Tests of the errors, with lower case for ASCII.
use diamond_bot_v.Errors.Records.{Call, HasOwnIds, run, run-new-HasOwnIds, handles, cleans, removes}
use diamond_bot_v.Base.{
  List, ℕ, ◌+◌, ◌*◌, ◌^◌, ◌≡◌, ◌≢◌, refl, true, ◌&&◌, none, some, [], ◌∷◌, map, leb, if◌then◌else◌,
  arith, lookup, length, retain,
}
use diamond_bot_v.Words.{◌>>=◌}
use diamond_bot_v.Texts.{Text, codes, starts_with, has}
use diamond_bot_v.Errors.Classify.{
  classify_lower, classify_blockchain_error, slippage_error, transaction_timeout, honeypot_token,
  unknown,
}
use diamond_bot_v.Errors.Recovery.{get_recovery_info, emergency_sell, abort_transaction}
use diamond_bot_v.Errors.Store.{
  BlockchainError, BasicErrorHandler, Formats, Clock, basic, new, new_default, default_config,
  get_config, resolved, pending, is_old, cleanup_old_errors, update_error_status,
  handle_transaction_error, filter_errors_by_status, remove_old, from_transaction_error,
}
use diamond_bot_v.Errors.Keywords.{word_with_k_retries}
use diamond_bot_v.Errors.Cleanup.{kept, cleanup_removes_old}
use diamond_bot_v.Errors.Records.{same_second_overwrites}

abbrev lower_letter : ℕ → ℕ
lower_letter c = if leb b'A' c && leb c b'Z' then c + 32 else c

abbrev lower : Text → Text
lower = map lower_letter

-- Ids from the length of the name and the time; no name of a test has the length of another.
abbrev formats : Formats
formats = record {
  to_lowercase = lower;
  format_id = λ name t. length name * 1_000_000 + t;
  to_string = λ e. codes "";
  encode = λ info. none;
}

abbrev transfer_failed : Text
transfer_failed = codes "Token TRANSFER failed"

abbrev timed_out : Text
timed_out = codes "RPC timeout"

classified :
    (classify_blockchain_error lower transfer_failed ≡ slippage_error transfer_failed)
    × (classify_blockchain_error lower timed_out ≡ transaction_timeout timed_out)
    × (classify_blockchain_error lower (codes "transferFrom")
        ≡ honeypot_token (codes "transferFrom"))
    × (classify_blockchain_error lower (codes "odd") ≡ unknown (codes "odd"))
unfolding classify_lower has starts_with
classified = (refl, refl, refl, refl)

abbrev at : ℕ → Clock
at t = record { timestamp = t; created = t * 10 ^ 9; updated = t * 10 ^ 9 }

abbrev made : ℕ → BlockchainError
made t = from_transaction_error formats (at t) (unknown (codes "odd"))

abbrev other : BlockchainError
other = record (made 5_000) { error_id = 7 }

abbrev two_errors : BasicErrorHandler
two_errors = record (new_default 0) {
  errors = ((made 1_000).error_id, made 1_000) ∷ (7, other) ∷ [];
}

get_config-new_default : get_config (new_default 0) ≡ default_config 0
get_config-new_default = refl

filtered :
    (filter_errors_by_status basic pending two_errors ≡ some (made 1_000 ∷ other ∷ []))
    × (filter_errors_by_status basic resolved two_errors ≡ some [])
filtered = (refl, refl)

unknown_id : update_error_status basic 3 resolved 0 two_errors ≡ none
unknown_id = refl

cleaned :
    cleanup_old_errors basic (5_000 * 10 ^ 9) 1 two_errors
    ≡ some (1, record two_errors { errors = (7, other) ∷ [] })
unfolding remove_old
cleaned = refl

has_token : has (codes "token") (lower transfer_failed) ≡ true
unfolding has starts_with
has_token = refl

token_has_k : has (codes "k") (codes "token") ≡ true
unfolding has starts_with
token_has_k = refl

has_timeout : has (codes "timeout") (lower timed_out) ≡ true
unfolding has starts_with
has_timeout = refl

word_with_k_retries_example :
    let info = get_recovery_info (classify_blockchain_error lower transfer_failed) in
    (info.should_retry ≡ true)
    × (info.suggested_action ≢ emergency_sell)
    × (info.suggested_action ≢ abort_transaction)
word_with_k_retries_example =
    word_with_k_retries lower (codes "token") transfer_failed has_token token_has_k

same_second_overwrites_example :
    (handle_transaction_error formats basic (at 9) transfer_failed two_errors >>= λ r.
    handle_transaction_error formats basic (at 9) transfer_failed r.1)
    ≡ handle_transaction_error formats basic (at 9) transfer_failed two_errors
same_second_overwrites_example =
    same_second_overwrites formats (at 9) (at 9) transfer_failed transfer_failed two_errors refl
      refl

cleanup_removes_old_example :
    (n : ℕ) × (h' : BasicErrorHandler) × (cleanup_old_errors basic (5_000 * 10 ^ 9) 1 two_errors
      ≡ some (n, h'))
    × ((k : ℕ)
        → lookup k h'.errors ≡ kept (5_000 * 10 ^ 9) (3_600 * 10 ^ 9) (lookup k two_errors.errors))
    × (n ≡ length (retain (λ p. is_old (5_000 * 10 ^ 9) (3_600 * 10 ^ 9) p.1) two_errors.errors))
cleanup_removes_old_example =
    cleanup_removes_old (5_000 * 10 ^ 9) 1 two_errors (refl, refl, (refl, refl, tt)) (omega arith)

abbrev error_calls : List Call
error_calls =
    handles (at 9) transfer_failed
    ∷ handles (at 9) transfer_failed
    ∷ cleans (5_000 * 10 ^ 9) 1
    ∷ removes 3
    ∷ []

run-new-HasOwnIds_example : HasOwnIds (run formats error_calls (new two_errors.config)).errors
run-new-HasOwnIds_example = run-new-HasOwnIds formats error_calls two_errors.config
