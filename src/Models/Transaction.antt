-- ===== src/Models/Transaction.antt =====
-- `Transaction` of common/src/models/transaction.rs. What ethers gives is in records of their own; its
-- `U64` fields hold numbers below 2 ^ 64, and `as_u64` of a `U256` panics where it does not fit. `none` is
-- a panic.
use diamond_bot_v.Base.{
  ℕ, ◌^◌, Bool, true, false, Option, none, some, List, [], ltb, ◌==◌, if◌then◌else◌,
}
use diamond_bot_v.Words.{◌>>=◌, mul256}

pub data TransactionStatus : Type 0 where
  pending confirmed failed cancelled replaced : TransactionStatus

pub record Transaction : Type 0 where
  pub id : ℕ
  pub hash : ℕ
  pub sender : ℕ
  pub receiver : Option ℕ
  pub value : ℕ
  pub nonce : ℕ
  pub payload : List ℕ
  pub gas_price : ℕ
  pub gas_limit : ℕ
  pub gas_used : Option ℕ
  pub transaction_type : Option ℕ
  pub status : TransactionStatus
  pub block_number : Option ℕ
  pub block_hash : Option ℕ
  pub created_at : ℕ
  pub updated_at : ℕ
  pub transaction_index : Option ℕ
  pub access_list : Option (List (ℕ × List ℕ))
  pub max_priority_fee_per_gas : Option ℕ
  pub max_fee_per_gas : Option ℕ
  pub chain_id : Option ℕ
  pub v : ℕ
  pub r : ℕ
  pub s : ℕ
  pub input : List ℕ
  pub contract_address : Option ℕ
  pub logs : Option (List ℕ)
  pub cumulative_gas_used : Option ℕ
  pub effective_gas_price : Option ℕ
  pub root : Option ℕ
  pub type_ : Option ℕ

-- The fields of `ethers::types::Transaction` that are read.
pub record EthTransaction : Type 0 where
  pub hash : ℕ
  pub sender : ℕ
  pub receiver : Option ℕ
  pub value : ℕ
  pub nonce : ℕ
  pub input : List ℕ
  pub gas_price : Option ℕ
  pub gas : ℕ
  pub transaction_type : Option ℕ
  pub block_number : Option ℕ
  pub block_hash : Option ℕ
  pub transaction_index : Option ℕ
  pub access_list : Option (List (ℕ × List ℕ))
  pub max_priority_fee_per_gas : Option ℕ
  pub max_fee_per_gas : Option ℕ
  pub chain_id : Option ℕ
  pub v : ℕ
  pub r : ℕ
  pub s : ℕ

pub record TransactionReceipt : Type 0 where
  pub transaction_hash : ℕ
  pub transaction_index : ℕ
  pub block_number : Option ℕ
  pub block_hash : Option ℕ
  pub gas_used : Option ℕ
  pub cumulative_gas_used : ℕ
  pub contract_address : Option ℕ
  pub logs : List ℕ
  pub status : Option ℕ
  pub root : Option ℕ
  pub transaction_type : Option ℕ
  pub effective_gas_price : Option ℕ

-- The id and the two readings of the clock of a new record.
pub record Birth : Type 0 where
  pub id : ℕ
  pub created : ℕ
  pub updated : ℕ

abbrev pub new : Birth → ℕ → ℕ → Option ℕ → ℕ → Transaction
new birth hash sender receiver value = record {
  id = birth.id;
  hash = hash;
  sender = sender;
  receiver = receiver;
  value = value;
  nonce = 0;
  payload = [];
  gas_price = 0;
  gas_limit = 0;
  gas_used = none;
  transaction_type = none;
  status = pending;
  block_number = none;
  block_hash = none;
  created_at = birth.created;
  updated_at = birth.updated;
  transaction_index = none;
  access_list = none;
  max_priority_fee_per_gas = none;
  max_fee_per_gas = none;
  chain_id = none;
  v = 0;
  r = 0;
  s = 0;
  input = [];
  contract_address = none;
  logs = none;
  cumulative_gas_used = none;
  effective_gas_price = none;
  root = none;
  type_ = none;
}

abbrev pub as_u64 : ℕ → Option ℕ
as_u64 n = if ltb n (2 ^ 64) then some n else none

-- `opt.map(|n| n.as_u64())`
abbrev pub map_as_u64 : Option ℕ → Option (Option ℕ)
map_as_u64 none = some none
map_as_u64 (some n) = do m ← as_u64 n; some (some m)

abbrev pub or_zero : Option ℕ → ℕ
or_zero none = 0
or_zero (some n) = n

unfoldable pub from_eth_transaction : Birth → EthTransaction → Option Transaction
from_eth_transaction birth tx = do
  nonce ← as_u64 tx.nonce
  chain_id ← map_as_u64 tx.chain_id
  some (record {
    id = birth.id;
    hash = tx.hash;
    sender = tx.sender;
    receiver = tx.receiver;
    value = tx.value;
    nonce = nonce;
    payload = tx.input;
    gas_price = or_zero tx.gas_price;
    gas_limit = tx.gas;
    gas_used = none;
    transaction_type = tx.transaction_type;
    status = pending;
    block_number = tx.block_number;
    block_hash = tx.block_hash;
    created_at = birth.created;
    updated_at = birth.updated;
    transaction_index = tx.transaction_index;
    access_list = tx.access_list;
    max_priority_fee_per_gas = tx.max_priority_fee_per_gas;
    max_fee_per_gas = tx.max_fee_per_gas;
    chain_id = chain_id;
    v = tx.v;
    r = tx.r;
    s = tx.s;
    input = tx.input;
    contract_address = none;
    logs = none;
    cumulative_gas_used = none;
    effective_gas_price = none;
    root = none;
    type_ = tx.transaction_type;
  })

abbrev pub status_of : ℕ → TransactionStatus
status_of n = if n == 1 then confirmed else failed

-- What `update_from_receipt` writes before it looks at the status.
abbrev pub with_receipt : TransactionReceipt → Transaction → Transaction
with_receipt receipt t = record t {
  gas_used = receipt.gas_used;
  block_number = receipt.block_number;
  block_hash = receipt.block_hash;
  transaction_index = some receipt.transaction_index;
  contract_address = receipt.contract_address;
  logs = some receipt.logs;
  cumulative_gas_used = some receipt.cumulative_gas_used;
  effective_gas_price = receipt.effective_gas_price;
  root = receipt.root;
  type_ = receipt.transaction_type;
}

-- Whether it gave `Ok`, and the transaction after it.
abbrev pub decide : Option ℕ → ℕ → Transaction → Bool × Transaction
decide none now t = (false, t)
decide (some n) now t = (true, record t { status = status_of n; updated_at = now })

unfoldable pub update_from_receipt : ℕ → TransactionReceipt → Transaction → Bool × Transaction
update_from_receipt now receipt t = decide receipt.status now (with_receipt receipt t)

abbrev pub cancel : ℕ → Transaction → Transaction
cancel now t = record t { status = cancelled; updated_at = now }

abbrev pub replace : ℕ → Transaction → Transaction
replace now t = record t { status = replaced; updated_at = now }

abbrev pub fee_at : ℕ → Option ℕ → Option (Option ℕ)
fee_at price none = some none
fee_at price (some used) = do f ← mul256 used price; some (some f)

unfoldable pub calculate_fee : Transaction → Option (Option ℕ)
calculate_fee t = fee_at t.gas_price t.gas_used

abbrev pub is_completed_at : TransactionStatus → Bool
is_completed_at confirmed = true
is_completed_at failed = true
is_completed_at pending = false
is_completed_at cancelled = false
is_completed_at replaced = false

abbrev pub is_completed : Transaction → Bool
is_completed t = is_completed_at t.status

abbrev pub update_nonce : ℕ → ℕ → Transaction → Transaction
update_nonce now nonce t = record t { nonce = nonce; updated_at = now }

abbrev pub update_data : ℕ → List ℕ → Transaction → Transaction
update_data now payload t = record t { payload = payload; updated_at = now }

abbrev pub update_gas : ℕ → ℕ → ℕ → Transaction → Transaction
update_gas now gas_price gas_limit t = record t {
  gas_price = gas_price;
  gas_limit = gas_limit;
  updated_at = now;
}

abbrev pub update_status : ℕ → TransactionStatus → Transaction → Transaction
update_status now status t = record t { status = status; updated_at = now }

abbrev pub status_or_pending : Option ℕ → TransactionStatus
status_or_pending none = pending
status_or_pending (some n) = status_of n

-- `Address::zero()` is the argument.
unfoldable pub from_receipt : ℕ → Birth → TransactionReceipt → Transaction
from_receipt zero_address birth receipt =
    record (new birth receipt.transaction_hash zero_address none 0) {
      gas_used = receipt.gas_used;
      transaction_type = receipt.transaction_type;
      status = status_or_pending receipt.status;
      block_number = receipt.block_number;
      block_hash = receipt.block_hash;
      transaction_index = some receipt.transaction_index;
      contract_address = receipt.contract_address;
      logs = some receipt.logs;
      cumulative_gas_used = some receipt.cumulative_gas_used;
      effective_gas_price = receipt.effective_gas_price;
      root = receipt.root;
      type_ = receipt.transaction_type;
    }
