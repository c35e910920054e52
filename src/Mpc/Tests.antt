-- ===== src/Mpc/Tests.antt =====
-- Tests of the multi-signature controller.
use diamond_bot_v.Base.{some, ◌≡◌, refl, true, false, none, List, [], ◌∷◌, Bool}
use diamond_bot_v.Near.{AccountId, Env, ok}
use diamond_bot_v.Sample.{by}
use diamond_bot_v.Mpc.{
  get_transaction, find_tx, get_completed_transactions, take, remove_authorized_signer, Signature,
  MpcTransaction, MpcController, SupportedChain, Request, transaction, new, add_supported_chain,
  is_chain_supported, create_transaction, add_signature, sign_first, sign_transaction,
  get_pending_transactions, set_threshold,
}
use diamond_bot_v.Mpc.Signing.{All}
use diamond_bot_v.Mpc.World.{
  Call, adds_chain, creates, signs, sets_threshold, call, run, IsValid, run-new-IsValid,
}
use diamond_bot_v.Mpc.Counts.{lowest, highest, Counts, run-new-Counts}

abbrev near : SupportedChain
near = record { chain_id = 1; chain_name = "NEAR"; bridge_address = "bridge"; enabled = true }

abbrev request : Request
request = record {
  tx_id = 7;
  from_chain = 1;
  to_chain = 1;
  sender = "a";
  receiver = "b";
  amount = 5;
  memo = none;
}

-- Signers 1, 2 and 3, of which two must sign.
abbrev controller : List MpcTransaction → MpcController
controller txs = record {
  authorized_signers = 1 ∷ 2 ∷ 3 ∷ [];
  threshold = 2;
  pending_transactions = txs;
  supported_chains = [];
  owner_id = 9;
}

abbrev signed : List (AccountId × Signature) → Bool → MpcTransaction
signed ss done = record (transaction (by 1 2) request) { signatures = ss; completed = done }

abbrev history : List (Env × Call)
history =
    (by 9 1, adds_chain near)
    ∷ (by 1 2, creates request)
    ∷ (by 1 3, signs 7 [])
    ∷ (by 1 4, signs 7 [])
    ∷ (by 9 5, sets_threshold 3)
    ∷ (by 2 6, signs 7 [])
    ∷ []

-- Two signatures are not enough any more.
run-history :
    get_pending_transactions (run (controller []) history)
    ≡ signed ((1, []) ∷ (2, []) ∷ []) false ∷ []
unfolding run call add_supported_chain create_transaction is_chain_supported sign_transaction
    sign_first add_signature set_threshold get_pending_transactions
run-history = refl

run-new-IsValid_example : IsValid (run (controller []) history)
unfolding new
run-new-IsValid_example = run-new-IsValid (1 ∷ 2 ∷ 3 ∷ []) 2 9 (controller []) history refl

run-new-Counts_example :
    All
      (Counts (lowest (controller []) history) (highest (controller []) history))
      (run (controller []) history).pending_transactions
unfolding new
run-new-Counts_example = run-new-Counts (1 ∷ 2 ∷ 3 ∷ []) 2 9 (controller []) history refl

abbrev once : MpcController
once = controller (signed ((1, []) ∷ []) false ∷ [])

abbrev twice : MpcController
twice = controller (signed ((1, []) ∷ (2, []) ∷ []) true ∷ [])

run-views :
    (get_transaction 7 twice ≡ some (signed ((1, []) ∷ (2, []) ∷ []) true))
    × (get_transaction 8 twice ≡ none)
    × (get_completed_transactions 1 twice ≡ signed ((1, []) ∷ (2, []) ∷ []) true ∷ [])
    × (remove_authorized_signer (by 9 5) 3 twice
        ≡ ok (record twice { authorized_signers = 1 ∷ 2 ∷ [] }, true))
unfolding get_transaction find_tx get_completed_transactions take remove_authorized_signer
run-views = (refl, refl, refl, refl)
