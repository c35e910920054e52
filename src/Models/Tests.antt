-- ===== src/Models/Tests.antt =====
-- Tests of the models.
use diamond_bot_v.Base.{ℕ, ◌+◌, ◌^◌, ◌≡◌, ◌↔◌, refl, true, false, none, some, List, [], ◌∷◌}
use diamond_bot_v.Models.Transaction.{
  Transaction, EthTransaction, TransactionReceipt, Birth, new, from_eth_transaction,
  update_from_receipt, is_completed, confirmed, failed, pending, update_nonce, update_data,
  update_gas, update_status,
}
use diamond_bot_v.Models.Wallet
use diamond_bot_v.Models.Wallet.{
  Details, standard, active, deleted, locked, from_private_key, is_active, get_metadata,
  has_sufficient_balance,
}
use diamond_bot_v.Models.Receipts.{update_from_receipt_lem}
use diamond_bot_v.Models.Status.{
  Call, unlocks, deletes, adds_token, adds_metadata, adds_contract, removes_contract, sets_balance,
  run,
}

abbrev birth : Birth
birth = record { id = 1; created = 10; updated = 11 }

abbrev receipt : TransactionReceipt
receipt = record {
  transaction_hash = 77;
  transaction_index = 3;
  block_number = some 900;
  block_hash = some 901;
  gas_used = some 21_000;
  cumulative_gas_used = 50_000;
  contract_address = none;
  logs = [];
  status = some 1;
  root = none;
  transaction_type = some 2;
  effective_gas_price = some 40;
}

abbrev eth : EthTransaction
eth = record {
  hash = 77;
  sender = 5;
  receiver = some 6;
  value = 1_000;
  nonce = 4;
  input = [];
  gas_price = some 50;
  gas = 21_000;
  transaction_type = some 2;
  block_number = none;
  block_hash = none;
  transaction_index = none;
  access_list = none;
  max_priority_fee_per_gas = none;
  max_fee_per_gas = none;
  chain_id = some 56;
  v = 0;
  r = 0;
  s = 0;
}

abbrev sent : Transaction
sent = record (new birth 77 5 (some 6) 1_000) {
  nonce = 4;
  gas_price = 50;
  gas_limit = 21_000;
  transaction_type = some 2;
  chain_id = some 56;
  type_ = some 2;
}

from_eth : from_eth_transaction birth eth ≡ some sent
unfolding from_eth_transaction
from_eth = refl

from_eth_overflow : from_eth_transaction birth (record eth { nonce = 2 ^ 64 }) ≡ none
unfolding from_eth_transaction
from_eth_overflow = refl

setters :
    ((update_nonce 20 9 sent).nonce ≡ 9)
    × ((update_data 20 (1 ∷ []) sent).payload ≡ 1 ∷ [])
    × ((update_gas 20 7 8 sent).gas_limit ≡ 8)
    × ((update_status 20 failed sent).status ≡ failed)
setters = (refl, refl, refl, refl)

abbrev details : Details
details = record { name = 8; description = none; chain_id = 56; gas_price = 1; gas_limit = 2 }

key_wallet :
    (from_private_key (λ k. some (k + 1)) birth 41 details
      ≡ some (Wallet.new birth 42 standard details))
    × (from_private_key (λ k. none) birth 41 details ≡ none)
key_wallet = (refl, refl)

abbrev life : List Call
life =
    adds_metadata 12 1 100
    ∷ adds_contract 13 500
    ∷ sets_balance 14 30
    ∷ removes_contract 15 500
    ∷ deletes 16
    ∷ adds_token 17 3 4
    ∷ unlocks 18
    ∷ []

lived :
    let w = run life (Wallet.new birth 42 standard details) in
    (get_metadata 1 w ≡ some 100)
    × (w.contracts ≡ [])
    × (is_active w ≡ true)
    × (has_sufficient_balance 30 w ≡ true)
    × (has_sufficient_balance 31 w ≡ false)
    × (w.updated_at ≡ 18)
lived = (refl, refl, refl, refl, refl, refl)

update_from_receipt_lem_example :
    let (is_ok, after) = update_from_receipt 20 receipt sent in
    (after.block_number ≡ some 900)
    × (after.gas_used ≡ some 21_000)
    × ((n : ℕ)
        → receipt.status ≡ some n
        → (is_ok ≡ true)
          × (is_completed after ≡ true)
          × ((after.status ≡ confirmed) ↔ (n ≡ 1))
          × (after.updated_at ≡ 20))
    × (receipt.status ≡ none → (is_ok ≡ false) × (after.status ≡ pending) × (after.updated_at ≡ 11))
update_from_receipt_lem_example = update_from_receipt_lem 20 receipt sent
