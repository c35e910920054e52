-- ===== src/Mpc/Signing.antt =====
-- Signatures on the controller's transactions: no signer is counted twice, a transaction is completed
-- only by the signature that reaches the threshold, and a request cannot reuse an id.
use diamond_bot_v.Base.{
  ℕ, ◌+◌, ◌≡◌, refl, Bool, true, false, List, [], ◌∷◌, arith, ◌==◌, if◌then◌else◌, push, any,
  contains, length, IsUnique, length-push, any-push-true, push-IsUnique,
}
use diamond_bot_v.Near.{AccountId, Env, ok}
use diamond_bot_v.Mpc.{
  TxId, Signature, MpcTransaction, MpcController, has_signed, add_signature, sign_first,
  sign_transaction,
}

abbrev pub signers : List (AccountId × Signature) → List AccountId
signers [] = []
signers ((a, s) ∷ l) = a ∷ signers l

-- A well-formed transaction: its signers are distinct.
abbrev pub IsSigned : MpcTransaction → Type 0
IsSigned tx = IsUnique (signers tx.signatures)

signers-push :
    (l : List (AccountId × Signature)) (a : AccountId) (s : Signature)
    → signers (push l (a, s)) ≡ push (signers l) a
signers-push [] a s = refl
signers-push ((b, t) ∷ l) a s = ground (arith, signers-push l a s)

any-signers :
    (l : List (AccountId × Signature)) (a : AccountId)
    → any (λ s. s.0 == a) l ≡ contains (signers l) a
any-signers [] a = refl
any-signers ((b, t) ∷ l) a = ground (arith, any-signers l a)

add_signature-IsSigned :
    (threshold : ℕ) (signer : AccountId) (signature : Signature) (tx : MpcTransaction)
    → has_signed signer tx ≡ false
    → IsSigned tx
    → IsSigned (add_signature threshold signer signature tx)
unfolding add_signature
add_signature-IsSigned threshold signer signature tx new_ h =
    rw (signers-push tx.signatures signer signature) (
      push-IsUnique (signers tx.signatures) signer h
        (ground (arith, any-signers tx.signatures signer)))

abbrev pub All {ℓ} : {A : Type ℓ} → (A → Type 0) → List A → Type 0
All P [] = Unit {0}
All P (x ∷ xs) = P x × All P xs

-- The ids of a list of transactions.
abbrev pub ids : List MpcTransaction → List TxId
ids [] = []
ids (tx ∷ txs) = tx.tx_id ∷ ids txs

module _ (threshold : ℕ) (signer : AccountId) (tx_id : TxId) (signature : Signature) where
  pub sign_first-All :
      (txs : List MpcTransaction)
      → All IsSigned txs
      → All IsSigned (sign_first threshold signer tx_id signature txs).0
  unfolding sign_first
  sign_first-All [] h = tt
  sign_first-All (tx ∷ txs) h =
      ground (arith, sign_first-All txs h.1, add_signature-IsSigned threshold signer signature tx)

  pub ids-sign_first :
      (txs : List MpcTransaction)
      → ids (sign_first threshold signer tx_id signature txs).0 ≡ ids txs
  unfolding sign_first
  ids-sign_first [] = refl
  ids-sign_first (tx ∷ txs) = ground (arith, ids-sign_first txs)

abbrev pub count_signatures : List MpcTransaction → ℕ
count_signatures [] = 0
count_signatures (tx ∷ txs) = length tx.signatures + count_signatures txs

sign_first_unknown :
    (threshold : ℕ) (signer : AccountId) (tx_id : TxId) (signature : Signature)
    (txs : List MpcTransaction)
    → contains (ids txs) tx_id ≡ false
    → sign_first threshold signer tx_id signature txs ≡ (txs, false)
unfolding sign_first
sign_first_unknown threshold signer tx_id signature [] h = refl
sign_first_unknown threshold signer tx_id signature (tx ∷ txs) h =
    ground (arith, sign_first_unknown threshold signer tx_id signature txs)

module _ (threshold : ℕ) (signer : AccountId) (tx_id : TxId) (signature : Signature) where
  sign_first_counts :
      (txs : List MpcTransaction)
      → let (txs', done) = sign_first threshold signer tx_id signature txs in
        count_signatures txs' ≡ count_signatures txs + (if done then 1 else 0)
  unfolding sign_first
  sign_first_counts [] = omega arith
  sign_first_counts (tx ∷ txs) =
      ground (arith, sign_first_counts txs, length-push tx.signatures (signer, signature))

  sign_first_again :
      (later : ℕ) (again : Signature) (txs : List MpcTransaction)
      → IsUnique (ids txs)
      → (sign_first threshold signer tx_id signature txs).1 ≡ true
      → let txs' = (sign_first threshold signer tx_id signature txs).0 in
        sign_first later signer tx_id again txs' ≡ (txs', false)
  unfolding sign_first
  sign_first_again later again [] u h = refl
  sign_first_again later again (tx ∷ txs) u h = ground (
    arith,
    sign_first_again later again txs u.1,
    sign_first_unknown later signer tx_id again txs,
    any-push-true (λ s. s.0 == signer) tx.signatures (signer, signature),
  )

-- A signature is taken from authorized signers only; it adds one signature to the ledger if the
-- answer is `true` and none if it is `false`; the ids, signers and threshold stay.
pub sign_transaction_counts :
    (env : Env) (tx_id : TxId) (signature : Signature) (c c' : MpcController) (done : Bool)
    → sign_transaction env tx_id signature c ≡ ok (c', done)
    → (contains c.authorized_signers env.predecessor ≡ true)
      × (count_signatures c'.pending_transactions
          ≡ count_signatures c.pending_transactions + (if done then 1 else 0))
      × (ids c'.pending_transactions ≡ ids c.pending_transactions)
      × (c'.authorized_signers ≡ c.authorized_signers)
      × (c'.threshold ≡ c.threshold)
unfolding sign_transaction
sign_transaction_counts env tx_id signature c c' done h = ground (
  arith,
  sign_first_counts c.threshold env.predecessor tx_id signature c.pending_transactions,
  ids-sign_first c.threshold env.predecessor tx_id signature c.pending_transactions,
)

-- Where ids are unique, a signer who has just signed a transaction cannot sign it again: the second
-- call answers `false` and changes nothing, whether or not the first one completed the transaction.
pub sign_transaction_twice :
    (env again : Env) (tx_id : TxId) (s s' : Signature) (c c' : MpcController)
    → IsUnique (ids c.pending_transactions)
    → again.predecessor ≡ env.predecessor
    → sign_transaction env tx_id s c ≡ ok (c', true)
    → sign_transaction again tx_id s' c' ≡ ok (c', false)
unfolding sign_transaction
sign_transaction_twice env again tx_id s s' c c' u same h = ground (
  arith,
  sign_first_again c.threshold env.predecessor tx_id s c.threshold s' c.pending_transactions u,
)
