-- ===== src/Errors/Store.antt =====
-- The store of errors: the trait `ErrorHandler`, its implementation `BasicErrorHandler`, and the
-- functions over any error handler. Times are in nanoseconds; ids are only compared, so they are numbers,
-- made by `format!` from a name and a time in seconds; JSON and `Display` are parameters. `none` is an
-- error of the handler.
use diamond_bot_v.Base.{
  ℕ, ◌+◌, ◌-◌, ◌*◌, ◌%◌, ◌^◌, Bool, true, false, Option, none, some, List, [], ◌∷◌, map, ltb, leb,
  if◌then◌else◌, Dict, lookup, insert, erase, retain,
}
use diamond_bot_v.Words.{◌>>=◌}
use diamond_bot_v.Texts.{Text, codes}
use diamond_bot_v.Errors.Classify.{
  TransactionError, connection_error, insufficient_gas, slippage_error, low_liquidity, token_revert,
  transaction_timeout, insufficient_balance, approval_failed, honeypot_token, withdrawal_failed,
  unknown, classify_blockchain_error,
}
use diamond_bot_v.Errors.Recovery.{TransactionRecoveryInfo, get_recovery_info}

pub data ErrorStatus : Type 0 where
  pending processing resolved error : ErrorStatus

pub record BlockchainError : Type 0 where
  pub error_id : ℕ
  pub name : Text
  pub description : Text
  pub status : ErrorStatus
  pub transaction_error : Option Text
  pub recovery_info : Option Text
  pub created_at : ℕ
  pub updated_at : ℕ

pub record ErrorHandlerConfig : Type 0 where
  pub config_id : Text
  pub name : Text
  pub version : Text
  pub created_at : ℕ
  pub retention_period : ℕ

abbrev pub default_config : ℕ → ErrorHandlerConfig
default_config now = record {
  config_id = codes "default";
  name = codes "Default Error Handler";
  version = codes "1.0.0";
  created_at = now;
  retention_period = 86_400 * 10 ^ 9;
}

pub record ErrorHandler (S : Type 0) : Type 0 where
  pub add_error : BlockchainError → S → Option S
  pub get_error : ℕ → S → Option (Option BlockchainError)
  pub get_errors : S → Option (List BlockchainError)
  pub remove_error : ℕ → S → Option S
  pub clear_errors : S → Option S

pub record BasicErrorHandler : Type 0 where
  pub config : ErrorHandlerConfig
  pub errors : Dict BlockchainError

abbrev pub new : ErrorHandlerConfig → BasicErrorHandler
new config = record { config = config; errors = [] }

abbrev pub new_default : ℕ → BasicErrorHandler
new_default now = new (default_config now)

abbrev pub get_config : BasicErrorHandler → ErrorHandlerConfig
get_config h = h.config

abbrev pub update_config : ErrorHandlerConfig → BasicErrorHandler → BasicErrorHandler
update_config config h = record h { config = config }

-- No lock is poisoned, so that no operation fails.
abbrev pub basic : ErrorHandler BasicErrorHandler
basic = record {
  add_error = λ e h. some (record h { errors = insert e.error_id e h.errors });
  get_error = λ id h. some (lookup id h.errors);
  get_errors = λ h. some (map (λ p. p.1) h.errors);
  remove_error = λ id h. some (record h { errors = erase id h.errors });
  clear_errors = λ h. some (record h { errors = [] });
}

abbrev pub error_name : TransactionError → Text
error_name (connection_error m) = codes "CONNECTION_ERROR"
error_name (insufficient_gas m) = codes "INSUFFICIENT_GAS"
error_name (slippage_error m) = codes "SLIPPAGE_ERROR"
error_name (low_liquidity m) = codes "LOW_LIQUIDITY"
error_name (token_revert m) = codes "TOKEN_REVERT"
error_name (transaction_timeout m) = codes "TRANSACTION_TIMEOUT"
error_name (insufficient_balance m) = codes "INSUFFICIENT_BALANCE"
error_name (approval_failed m) = codes "APPROVAL_FAILED"
error_name (honeypot_token m) = codes "HONEYPOT_TOKEN"
error_name (withdrawal_failed m) = codes "WITHDRAWAL_FAILED"
error_name (unknown m) = codes "UNKNOWN_ERROR"

-- What the code takes from the standard library and from serde.
pub record Formats : Type 0 where
  pub to_lowercase : Text → Text
  pub format_id : Text → ℕ → ℕ
  pub to_string : TransactionError → Text
  pub encode : TransactionRecoveryInfo → Option Text

abbrev pub or_default : Option Text → Text
or_default none = []
or_default (some t) = t

-- The readings of the clock when an error is made: for the id, in seconds, and for its two times.
pub record Clock : Type 0 where
  pub timestamp : ℕ
  pub created : ℕ
  pub updated : ℕ

module _ (formats : Formats) where
  open formats use {to_lowercase, format_id, to_string, encode}

  -- `BlockchainError::from`
  abbrev pub from_transaction_error : Clock → TransactionError → BlockchainError
  from_transaction_error clock e = record {
    error_id = format_id (error_name e) clock.timestamp;
    name = error_name e;
    description = to_string e;
    status = pending;
    transaction_error = some (to_string e);
    recovery_info = some (or_default (encode (get_recovery_info e)));
    created_at = clock.created;
    updated_at = clock.updated;
  }

  module _ {S : Type 0} (handler : ErrorHandler S) where
    abbrev pub handle_transaction_error : Clock → Text → S → Option (TransactionRecoveryInfo × S)
    handle_transaction_error clock msg s =
        let e = classify_blockchain_error to_lowercase msg in
        do s' ← handler.add_error (from_transaction_error clock e) s; some (get_recovery_info e, s')

abbrev pub same_status : ErrorStatus → ErrorStatus → Bool
same_status pending pending = true
same_status processing processing = true
same_status resolved resolved = true
same_status error error = true
same_status pending t = false
same_status processing t = false
same_status resolved t = false
same_status error t = false

-- `now.duration_since(created_at)` is an error for a time after `now`.
abbrev pub is_old : ℕ → ℕ → BlockchainError → Bool
is_old now max_age e = if leb e.created_at now then ltb max_age (now - e.created_at) else false

module _ {S : Type 0} (handler : ErrorHandler S) where
  abbrev pub store_status : Option BlockchainError → ErrorStatus → ℕ → S → Option S
  store_status none status now s = none
  store_status (some e) status now s =
      handler.add_error (record e { status = status; updated_at = now }) s

  abbrev pub update_error_status : ℕ → ErrorStatus → ℕ → S → Option S
  update_error_status id status now s = do
    found ← handler.get_error id s
    store_status found status now s

  abbrev pub filter_errors_by_status : ErrorStatus → S → Option (List BlockchainError)
  filter_errors_by_status status s = do
    errors ← handler.get_errors s
    some (retain (λ e. same_status e.status status) errors)

  -- The loop over the errors, with the number removed so far.
  unfoldable pub remove_old : ℕ → ℕ → List BlockchainError → ℕ → S → Option (ℕ × S)
  remove_old now max_age [] count s = some (count, s)
  remove_old now max_age (e ∷ es) count s =
      let skip = remove_old now max_age es count s in
      let drop =
        handler.remove_error e.error_id s >>= remove_old now max_age es ((count + 1) % 2 ^ 64) in
      if is_old now max_age e then drop else skip

  abbrev pub cleanup_old_errors : ℕ → ℕ → S → Option (ℕ × S)
  cleanup_old_errors now max_age_hours s = do
    errors ← handler.get_errors s
    remove_old now (max_age_hours * 3_600 % 2 ^ 64 * 10 ^ 9) errors 0 s
