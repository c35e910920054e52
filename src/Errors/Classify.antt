-- ===== src/Errors/Classify.antt =====
-- `TransactionError` and `classify_blockchain_error`. A text is the list of its code points;
-- `str::to_lowercase` is a parameter.
use diamond_bot_v.Base.{Bool, ◌&&◌, ◌||◌, if◌then◌else◌}
use diamond_bot_v.Texts.{Text, codes, has}

pub data TransactionError : Type 0 where
  connection_error insufficient_gas slippage_error low_liquidity token_revert :
      Text → TransactionError
  transaction_timeout insufficient_balance approval_failed : Text → TransactionError
  honeypot_token withdrawal_failed unknown : Text → TransactionError

-- The tests of `classify_blockchain_error` on the message in lower case, in their order.
abbrev pub names_gas : Text → Bool
names_gas s = has (codes "gas") s && (has (codes "low") s || has (codes "insufficient") s)

abbrev pub names_slippage : Text → Bool
names_slippage s =
    has (codes "slippage") s
    || has (codes "k") s
    || has (codes "amount out") s
    || has (codes "output amount") s

abbrev pub names_revert : Text → Bool
names_revert s = has (codes "revert") s || has (codes "execution reverted") s

abbrev pub names_timeout : Text → Bool
names_timeout s = has (codes "timeout") s || has (codes "not mined") s

abbrev pub names_balance : Text → Bool
names_balance s = has (codes "balance") s && has (codes "insufficient") s

abbrev pub names_approval : Text → Bool
names_approval s = has (codes "approve") s || has (codes "allowance") s

abbrev pub names_honeypot : Text → Bool
names_honeypot s = has (codes "cannot estimate") s || has (codes "transfer") s

abbrev pub names_connection : Text → Bool
names_connection s =
    has (codes "connect") s
    || has (codes "rpc") s
    || has (codes "timeout") s
    || has (codes "unavailable") s

-- The message in lower case decides, and the message itself is kept.
unfoldable pub classify_lower : Text → Text → TransactionError
classify_lower s msg =
    if names_gas s
    then insufficient_gas msg
    else if names_slippage s
    then slippage_error msg
    else if has (codes "liquidity") s
    then low_liquidity msg
    else if names_revert s
    then token_revert msg
    else if names_timeout s
    then transaction_timeout msg
    else if names_balance s
    then insufficient_balance msg
    else if names_approval s
    then approval_failed msg
    else if names_honeypot s
    then honeypot_token msg
    else if has (codes "withdraw") s
    then withdrawal_failed msg
    else if names_connection s
    then connection_error msg
    else unknown msg

abbrev pub classify_blockchain_error : (Text → Text) → Text → TransactionError
classify_blockchain_error to_lowercase msg = classify_lower (to_lowercase msg) msg
