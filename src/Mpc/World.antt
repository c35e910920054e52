-- ===== src/Mpc/World.antt =====
-- The controller over any history of calls: its threshold can be reached, ids are unique and a
-- transaction's signers are distinct.
use diamond_bot_v.Base.{
  ℕ, ◌≡◌, ◌≤◌, ◌<◌, refl, inl, inr, Bool, List, [], ◌∷◌, arith, push, contains, length, IsUnique,
  length-push, push-IsUnique,
}
use diamond_bot_v.Near.{AccountId, Env, Result, ok, settle, Result-cases, ◌>>=◌}
use diamond_bot_v.Mpc.{
  TxId, Signature, MpcTransaction, MpcController, SupportedChain, Request, transaction, is_known,
  create_transaction, sign_transaction, new, add_supported_chain, update_supported_chain,
  add_authorized_signer, remove_authorized_signer, set_threshold, transfer_ownership,
}
use diamond_bot_v.Mpc.Signing.{IsSigned, All, ids, ids-sign_first, sign_first-All, signers}

pub data Call : Type 0 where
  adds_chain : SupportedChain → Call
  updates_chain : ℕ → SupportedChain → Call
  creates : Request → Call
  signs : TxId → Signature → Call
  adds_signer removes_signer transfers_ownership : AccountId → Call
  sets_threshold : ℕ → Call

abbrev first : Result (MpcController × Bool) → Result MpcController
first r = r >>= λ p. ok p.0

unfoldable pub call : Env → Call → MpcController → Result MpcController
call env (adds_chain chain) c = first (add_supported_chain env chain c)
call env (updates_chain chain_id chain) c = first (update_supported_chain env chain_id chain c)
call env (creates r) c = first (create_transaction env r c)
call env (signs tx_id signature) c = first (sign_transaction env tx_id signature c)
call env (adds_signer signer) c = first (add_authorized_signer env signer c)
call env (removes_signer signer) c = first (remove_authorized_signer env signer c)
call env (transfers_ownership owner) c = transfer_ownership env owner c
call env (sets_threshold threshold) c = first (set_threshold env threshold c)

unfoldable pub run : MpcController → List (Env × Call) → MpcController
run c [] = c
run c ((env, a) ∷ as_) = run (settle c (call env a c)) as_

pub record IsValid (c : MpcController) : Type 0 where
  pub positive : 0 < c.threshold
  pub reachable : c.threshold ≤ length c.authorized_signers
  pub unique_ids : IsUnique (ids c.pending_transactions)
  pub signed : All IsSigned c.pending_transactions

known-ids : (t : TxId) (txs : List MpcTransaction) → is_known t txs ≡ contains (ids txs) t
known-ids t [] = refl
known-ids t (tx ∷ txs) = ground (arith, known-ids t txs)

ids-push :
    (txs : List MpcTransaction) (tx : MpcTransaction) → ids (push txs tx) ≡ push (ids txs) tx.tx_id
ids-push [] tx = refl
ids-push (x ∷ xs) tx = ground (arith, ids-push xs tx)

pub All-push :
    (P : MpcTransaction → Type 0) (txs : List MpcTransaction) (tx : MpcTransaction)
    → All P txs
    → P tx
    → All P (push txs tx)
All-push P [] tx h p = (p, tt)
All-push P (x ∷ xs) tx h p = (h.0, All-push P xs tx h.1 p)

create-IsValid :
    (env : Env) (r : Request) (c c' : MpcController)
    → call env (creates r) c ≡ ok c'
    → IsValid c
    → IsValid c'
unfolding call create_transaction
create-IsValid env r c c' h v = ground (
  arith,
  known-ids r.tx_id c.pending_transactions,
  ids-push c.pending_transactions (transaction env r),
  push-IsUnique (ids c.pending_transactions) r.tx_id v.unique_ids,
  All-push IsSigned c.pending_transactions (transaction env r) v.signed tt,
)

sign-IsValid :
    (env : Env) (t : TxId) (s : Signature) (c c' : MpcController)
    → call env (signs t s) c ≡ ok c'
    → IsValid c
    → IsValid c'
unfolding call sign_transaction
sign-IsValid env t s c c' h v = ground (
  arith,
  sign_first-All c.threshold env.predecessor t s c.pending_transactions v.signed,
  ids-sign_first c.threshold env.predecessor t s c.pending_transactions,
)

pub call-IsValid :
    (env : Env) (a : Call) (c c' : MpcController) → call env a c ≡ ok c' → IsValid c → IsValid c'
unfolding call add_supported_chain update_supported_chain add_authorized_signer
    remove_authorized_signer transfer_ownership set_threshold
call-IsValid env (adds_chain chain) c c' h v = ground arith
call-IsValid env (updates_chain chain_id chain) c c' h v = ground arith
call-IsValid env (creates r) c c' h v = create-IsValid env r c c' h v
call-IsValid env (signs t s) c c' h v = sign-IsValid env t s c c' h v
call-IsValid env (adds_signer a) c c' h v = ground (arith, length-push c.authorized_signers a)
call-IsValid env (removes_signer a) c c' h v = ground arith
call-IsValid env (transfers_ownership a) c c' h v = ground arith
call-IsValid env (sets_threshold n) c c' h v = ground arith

run-IsValid : (c : MpcController) (cs : List (Env × Call)) → IsValid c → IsValid (run c cs)
unfolding run
run-IsValid c [] v = v
run-IsValid c ((env, a) ∷ cs) v = elim (Result-cases (call env a c)) [
  | inl (c', e) ↦ rw (e, run) (run-IsValid c' cs (call-IsValid env a c c' e v))
  | inr (x, e) ↦ rw (e, run) (run-IsValid c cs v)
]

pub new-IsValid :
    (signers : List AccountId) (threshold : ℕ) (owner : AccountId) (c : MpcController)
    → new signers threshold owner ≡ ok c
    → IsValid c
unfolding new
new-IsValid signers threshold owner c h = ground arith

-- After any calls on a controller that was set up without a panic, those that panic included: the
-- threshold is at least one and no more than the signers, no two transactions share an id, and no
-- transaction holds two signatures of one signer.
pub run-new-IsValid :
    (signers : List AccountId) (threshold : ℕ) (owner : AccountId) (c : MpcController)
    (cs : List (Env × Call))
    → new signers threshold owner ≡ ok c
    → IsValid (run c cs)
run-new-IsValid signers threshold owner c cs h =
    run-IsValid c cs (new-IsValid signers threshold owner c h)
