-- ===== src/Mpc/Counts.antt =====
-- The signatures of completed and open transactions against the thresholds in force over a history.
use Prim.Native.Nat.{min, max}
use diamond_bot_v.Base.{
  ℕ, ◌≡◌, ◌≤◌, ◌<◌, refl, inl, inr, true, false, List, [], ◌∷◌, arith, length, length-push, ◌⊎◌,
}
use diamond_bot_v.Near.{AccountId, Env, ok, settle, Result-cases}
use diamond_bot_v.Mpc.{
  TxId, Signature, MpcTransaction, MpcController, transaction, create_transaction, add_signature,
  sign_first, sign_transaction, new, add_supported_chain, update_supported_chain,
  add_authorized_signer, remove_authorized_signer, set_threshold, transfer_ownership,
}
use diamond_bot_v.Mpc.Signing.{All, signers}
use diamond_bot_v.Mpc.World.{
  Call, adds_chain, updates_chain, creates, signs, adds_signer, removes_signer, transfers_ownership,
  sets_threshold, call, run, IsValid, All-push, call-IsValid, new-IsValid,
}

-- The least and the greatest threshold in force from a controller on, over its calls.
pub lowest : MpcController → List (Env × Call) → ℕ
lowest c [] = c.threshold
lowest c ((env, a) ∷ as_) = min c.threshold (lowest (settle c (call env a c)) as_)

pub highest : MpcController → List (Env × Call) → ℕ
highest c [] = c.threshold
highest c ((env, a) ∷ as_) = max c.threshold (highest (settle c (call env a c)) as_)

-- Between `low` and `high`: completed with at least `low` signatures, or not, with fewer than `high`.
abbrev pub Counts : ℕ → ℕ → MpcTransaction → Type 0
Counts low high tx =
    ((tx.completed ≡ true) × (low ≤ length tx.signatures))
    ⊎ ((tx.completed ≡ false) × (length tx.signatures < high))

module _ (low high : ℕ) where
  add_signature-Counts :
      (t : ℕ) (signer : AccountId) (s : Signature) (tx : MpcTransaction)
      → low ≤ t
      → t ≤ high
      → tx.completed ≡ false
      → Counts low high tx
      → Counts low high (add_signature t signer s tx)
  unfolding add_signature
  add_signature-Counts t signer s tx l h open_ k =
      ground (arith, length-push tx.signatures (signer, s))

  sign_first-Counts :
      (t : ℕ) (signer : AccountId) (n : TxId) (s : Signature) (txs : List MpcTransaction)
      → low ≤ t
      → t ≤ high
      → All (Counts low high) txs
      → All (Counts low high) (sign_first t signer n s txs).0
  unfolding sign_first
  sign_first-Counts t signer n s [] l h k = tt
  sign_first-Counts t signer n s (tx ∷ txs) l h k =
      ground
        (arith, sign_first-Counts t signer n s txs l h k.1, add_signature-Counts t signer s tx l h)

  call-Counts :
      (env : Env) (a : Call) (c c' : MpcController)
      → call env a c ≡ ok c'
      → 0 < c.threshold
      → low ≤ c.threshold
      → c.threshold ≤ high
      → All (Counts low high) c.pending_transactions
      → All (Counts low high) c'.pending_transactions
  unfolding call add_supported_chain update_supported_chain add_authorized_signer
      remove_authorized_signer transfer_ownership set_threshold create_transaction sign_transaction
  call-Counts env (adds_chain chain) c c' e p l h k = ground arith
  call-Counts env (updates_chain chain_id chain) c c' e p l h k = ground arith
  call-Counts env (creates r) c c' e p l h k = ground (
    arith,
    All-push (Counts low high) c.pending_transactions (transaction env r) k
        (inr (refl, omega arith)),
  )
  call-Counts env (signs t s) c c' e p l h k =
      ground (arith, sign_first-Counts c.threshold env.predecessor t s c.pending_transactions l h k)
  call-Counts env (adds_signer a) c c' e p l h k = ground arith
  call-Counts env (removes_signer a) c c' e p l h k = ground arith
  call-Counts env (transfers_ownership a) c c' e p l h k = ground arith
  call-Counts env (sets_threshold n) c c' e p l h k = ground arith

lowest-le : (c : MpcController) (cs : List (Env × Call)) → lowest c cs ≤ c.threshold
unfolding lowest
lowest-le c [] = omega arith
lowest-le c ((env, a) ∷ cs) = omega arith

highest-ge : (c : MpcController) (cs : List (Env × Call)) → c.threshold ≤ highest c cs
unfolding highest
highest-ge c [] = omega arith
highest-ge c ((env, a) ∷ cs) = omega arith

settle-Counts :
    (low high : ℕ) (c : MpcController) (env : Env) (a : Call)
    → IsValid c
    → low ≤ c.threshold
    → c.threshold ≤ high
    → All (Counts low high) c.pending_transactions
    → IsValid (settle c (call env a c))
      × All (Counts low high) (settle c (call env a c)).pending_transactions
settle-Counts low high c env a v l h k = elim (Result-cases (call env a c)) [
  | inl (c', e) ↦
      rw e (call-IsValid env a c c' e v, call-Counts low high env a c c' e v.positive l h k)
  | inr (x, e) ↦ rw e (v, k)
]

run-Counts :
    (low high : ℕ) (c : MpcController) (cs : List (Env × Call))
    → IsValid c
    → low ≤ lowest c cs
    → highest c cs ≤ high
    → All (Counts low high) c.pending_transactions
    → All (Counts low high) (run c cs).pending_transactions
unfolding run lowest highest
run-Counts low high c [] v l h k = k
run-Counts low high c ((env, a) ∷ cs) v l h k =
    let c' = settle c (call env a c) in
    let (v', k') = settle-Counts low high c env a v (omega arith) (omega arith) k in
    run-Counts low high c' cs v' (omega arith) (omega arith) k'

no_transactions :
    (low high : ℕ) (signers : List AccountId) (threshold : ℕ) (owner : AccountId)
    (c : MpcController)
    → new signers threshold owner ≡ ok c
    → All (Counts low high) c.pending_transactions
unfolding new
no_transactions low high signers threshold owner c h = ground arith

-- After any calls on a controller that was set up without a panic, each transaction is completed and
-- has at least as many signatures as the least threshold that was in force, or is not completed and
-- has fewer than the greatest.
pub run-new-Counts :
    (signers : List AccountId) (threshold : ℕ) (owner : AccountId) (c : MpcController)
    (cs : List (Env × Call))
    → new signers threshold owner ≡ ok c
    → All (Counts (lowest c cs) (highest c cs)) (run c cs).pending_transactions
run-new-Counts signers threshold owner c cs h =
    run-Counts (lowest c cs) (highest c cs) c cs (new-IsValid signers threshold owner c h)
      (omega arith) (omega arith)
      (no_transactions (lowest c cs) (highest c cs) signers threshold owner c h)
