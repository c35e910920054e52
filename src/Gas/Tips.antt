-- ===== src/Gas/Tips.antt =====
-- `calculate_priority_fee`: the average of what recent transactions paid beyond the base fee. The
-- function stands outside `GasOptimizer` and uses its `self`; it is taken as a method with a cache of
-- its own. The blocks that the node gives, the newest first and ten at most, are an argument.
use diamond_bot_v.Base.{
  ℕ, zero, suc, ◌+◌, ◌-◌, ◌/◌, ◌^◌, Option, none, some, List, [], ◌∷◌, ◌++◌, ltb, leb, ◌==◌,
  if◌then◌else◌, length, Dict, lookup, insert,
}
use diamond_bot_v.Words.{sub64}

pub record Tx : Type 0 where
  pub max_fee_per_gas : Option ℕ
  pub max_priority_fee_per_gas : Option ℕ

-- A block, with what `get_transaction` gives for each of its hashes.
pub record TxBlock : Type 0 where
  pub base_fee_per_gas : Option ℕ
  pub transactions : List (Option Tx)

pub record TipEntry : Type 0 where
  pub value : ℕ
  pub timestamp : ℕ

-- `sumU256`, by `saturating_add`.
unfoldable pub sum_saturating : ℕ → List ℕ → ℕ
sum_saturating sum [] = sum
sum_saturating sum (v ∷ vs) =
    sum_saturating (if ltb (sum + v) (2 ^ 256) then sum + v else 2 ^ 256 - 1) vs

-- `avgU256`
abbrev pub average_saturating : List ℕ → ℕ
average_saturating [] = 0
average_saturating (v ∷ vs) = sum_saturating 0 (v ∷ vs) / length (v ∷ vs)

-- What a transaction pays beyond the base fee.
abbrev pub effective_priority : ℕ → ℕ → ℕ → ℕ
effective_priority base_fee max_fee priority_fee =
    if leb max_fee base_fee
    then 0
    else if ltb (max_fee - base_fee) priority_fee
    then max_fee - base_fee
    else priority_fee

abbrev pub push_tip : ℕ → List ℕ → List ℕ
push_tip tip tips = if tip == 0 then tips else tips ++ tip ∷ []

abbrev pub tip_of : ℕ → Option ℕ → Option ℕ → List ℕ → List ℕ
tip_of base_fee (some max_fee) (some priority_fee) tips =
    push_tip (effective_priority base_fee max_fee priority_fee) tips
tip_of base_fee (some max_fee) none tips = tips
tip_of base_fee none priority_fee tips = tips

abbrev pub add_tip : ℕ → Option Tx → List ℕ → List ℕ
add_tip base_fee none tips = tips
add_tip base_fee (some tx) tips =
    tip_of base_fee tx.max_fee_per_gas tx.max_priority_fee_per_gas tips

unfoldable pub tips_of : ℕ → List (Option Tx) → List ℕ → List ℕ
tips_of base_fee [] tips = tips
tips_of base_fee (tx ∷ txs) tips = tips_of base_fee txs (add_tip base_fee tx tips)

abbrev pub block_tips : Option ℕ → List (Option Tx) → List ℕ → List ℕ
block_tips none txs tips = tips
block_tips (some base_fee) txs tips = tips_of base_fee txs tips

-- The loop over the ten newest blocks; block 0 is left out.
unfoldable pub collect : ℕ → ℕ → (ℕ → Option TxBlock) → List ℕ → List ℕ
collect zero latest get_block tips = tips
collect (suc left) latest get_block tips =
    let i = 9 - left in
    let rest = collect left latest get_block (elim (get_block (latest - i)) [
      | none ↦ tips
      | some b ↦ block_tips b.base_fee_per_gas b.transactions tips
    ]) in
    if leb latest i then tips else rest

abbrev pub tip_from : List ℕ → ℕ
tip_from [] = 1_000_000_000
tip_from (t ∷ ts) = average_saturating (t ∷ ts)

abbrev pub tip_or_collect :
    Option TipEntry → ℕ → ℕ → ℕ → (ℕ → Option TxBlock) → Dict TipEntry → ℕ × Dict TipEntry
tip_or_collect (some cached) url now latest get_block cache = (cached.value, cache)
tip_or_collect none url now latest get_block cache =
    let result = tip_from (collect 10 latest get_block []) in
    (result, insert url (record { value = result; timestamp = now }) cache)

abbrev pub fresh_tip : ℕ → Option TipEntry → Option TipEntry
fresh_tip now none = none
fresh_tip now (some cached) = if ltb (sub64 now cached.timestamp) 60 then some cached else none

-- For a node that answers every call.
unfoldable pub calculate_priority_fee :
    ℕ → ℕ → ℕ → (ℕ → Option TxBlock) → Dict TipEntry → ℕ × Dict TipEntry
calculate_priority_fee url now latest get_block cache =
    tip_or_collect (fresh_tip now (lookup url cache)) url now latest get_block cache
