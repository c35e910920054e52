-- ===== src/Rpc/Errors.antt =====
-- `BlockchainError`, the classification of messages, `is_retryable` and `adjust_gas_for_retry`.
use diamond_bot_v.Base.{ℕ, ◌/◌, Bool, true, false, ◌||◌, Option, some, if◌then◌else◌}
use diamond_bot_v.Words.{◌>>=◌, add256, mul256}
use diamond_bot_v.Texts.{Text, codes, has}

pub data BlockchainError : Type 0 where
  rpc_connection transaction_rejected low_gas invalid_nonce : Text → BlockchainError
  insufficient_balance contract_error timeout other : Text → BlockchainError

abbrev pub names_gas_price : Text → Bool
names_gas_price s = has (codes "underpriced") s || has (codes "gas price") s

abbrev pub names_connection : Text → Bool
names_connection s =
    has (codes "connection") s || has (codes "timeout") s || has (codes "rate limit") s

-- The error of a message, in `retry_blockchain_operation` and for a client's JSON-RPC error.
unfoldable pub classify : Text → BlockchainError
classify s =
    if has (codes "insufficient funds") s
    then insufficient_balance s
    else if has (codes "gas required exceeds allowance") s
    then insufficient_balance s
    else if has (codes "nonce") s
    then invalid_nonce s
    else if names_gas_price s
    then low_gas s
    else if has (codes "execution reverted") s
    then contract_error s
    else if names_connection s
    then rpc_connection s
    else other s

-- `ProviderError`, with the texts that it formats to.
pub data ProviderError : Type 0 where
  json_rpc_client_error ens_error serde_json hex_error unknown : Text → ProviderError

-- `BlockchainError::from`
abbrev pub from_provider_error : ProviderError → BlockchainError
from_provider_error (json_rpc_client_error s) = classify s
from_provider_error (ens_error s) = other s
from_provider_error (serde_json s) = other s
from_provider_error (hex_error s) = other s
from_provider_error (unknown s) = other s

abbrev pub is_retryable : BlockchainError → Bool
is_retryable (rpc_connection m) = true
is_retryable (low_gas m) = true
is_retryable (invalid_nonce m) = true
is_retryable (timeout m) = true
is_retryable (transaction_rejected m) = false
is_retryable (insufficient_balance m) = false
is_retryable (contract_error m) = false
is_retryable (other m) = false

abbrev pub raised : ℕ → Option ℕ
raised price = do p ← mul256 price 20; add256 price (p / 100)

abbrev pub adjust_gas_for_retry : BlockchainError → ℕ → Option ℕ
adjust_gas_for_retry (low_gas m) price = raised price
adjust_gas_for_retry (rpc_connection m) price = some price
adjust_gas_for_retry (transaction_rejected m) price = some price
adjust_gas_for_retry (invalid_nonce m) price = some price
adjust_gas_for_retry (insufficient_balance m) price = some price
adjust_gas_for_retry (contract_error m) price = some price
adjust_gas_for_retry (timeout m) price = some price
adjust_gas_for_retry (other m) price = some price
