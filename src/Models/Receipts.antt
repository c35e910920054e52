-- ===== src/Models/Receipts.antt =====
-- What receipts do to a transaction and to its fee.
use diamond_bot_v.Base.{
  ℕ, ◌*◌, ◌^◌, ◌<◌, ◌≡◌, ◌↔◌, refl, true, false, none, some, arith, Option-cases, inl, inr,
}
use native.Mathlib.Nat.{mul-zero}
use diamond_bot_v.Models.Transaction.{
  Transaction, TransactionReceipt, Birth, from_receipt, update_from_receipt, calculate_fee,
  is_completed, cancel, replace, confirmed, status_of, is_completed_at,
}

-- A transaction that is made from a receipt has the fee zero, whatever gas was used and whatever price the
-- receipt says was paid.
pub from_receipt_costs_nothing :
    (zero_address used : ℕ) (birth : Birth) (receipt : TransactionReceipt)
    → receipt.gas_used ≡ some used
    → calculate_fee (from_receipt zero_address birth receipt) ≡ some (some 0)
unfolding calculate_fee from_receipt
from_receipt_costs_nothing zero_address used birth receipt e = rw e (ground (arith, mul-zero used))

-- After a receipt with a status the fee is the gas used at the price that the transaction offered,
-- where that fits in 256 bits: the price that the receipt says was paid does not matter.
pub fee_at_offered_price :
    (now used n : ℕ) (receipt : TransactionReceipt) (t : Transaction)
    → receipt.status ≡ some n
    → receipt.gas_used ≡ some used
    → used * t.gas_price < 2 ^ 256
    → calculate_fee (update_from_receipt now receipt t).1 ≡ some (some (used * t.gas_price))
unfolding calculate_fee update_from_receipt
fee_at_offered_price now used n receipt t s u l = ground arith

status_of_completed : (n : ℕ) → is_completed_at (status_of n) ≡ true
status_of_completed n = ground arith

-- A receipt decides a transaction: it gives `Ok` exactly if it has a status; then the transaction is
-- completed, confirmed exactly if the status is 1, and takes the block of the receipt. A receipt without
-- a status gives an error, and leaves the status and the time of the last change as they were, but the
-- block and the gas of the receipt stand in the transaction all the same.
pub update_from_receipt_lem :
    (now : ℕ) (receipt : TransactionReceipt) (t : Transaction)
    → let (is_ok, after) = update_from_receipt now receipt t in
      (after.block_number ≡ receipt.block_number)
      × (after.gas_used ≡ receipt.gas_used)
      × ((n : ℕ)
          → receipt.status ≡ some n
          → (is_ok ≡ true)
            × (is_completed after ≡ true)
            × ((after.status ≡ confirmed) ↔ (n ≡ 1))
            × (after.updated_at ≡ now))
      × (receipt.status ≡ none
          → (is_ok ≡ false) × (after.status ≡ t.status) × (after.updated_at ≡ t.updated_at))
unfolding update_from_receipt
update_from_receipt_lem now receipt t = (
  elim (Option-cases receipt.status) [ inl e ↦ rw e refl | inr (n, e) ↦ rw e refl ],
  elim (Option-cases receipt.status) [ inl e ↦ rw e refl | inr (n, e) ↦ rw e refl ],
  λ n s. rw s (refl, status_of_completed n, (λ h. ground arith, λ h. ground arith), refl),
  λ s. rw s (refl, refl, refl),
)

-- A transaction that a receipt has completed can still be cancelled or replaced: it is then no longer
-- completed, and keeps the block of the receipt.
pub completed_can_be_cancelled :
    (now later n : ℕ) (receipt : TransactionReceipt) (t : Transaction)
    → receipt.status ≡ some n
    → let after = (update_from_receipt now receipt t).1 in
      (is_completed after ≡ true)
      × (is_completed (cancel later after) ≡ false)
      × (is_completed (replace later after) ≡ false)
      × ((cancel later after).block_number ≡ receipt.block_number)
unfolding update_from_receipt
completed_can_be_cancelled now later n receipt t s = ground arith
