-- ===== src/Mpc.antt =====
-- The multi-signature controller, `MPCController` in blockchain/src/diamond_token/src/bridge.rs. The
-- texts `tx_id`, `sender`, `receiver` are only compared or stored; a signature is a list of bytes.
pub mod Signing
pub mod World
pub mod Counts
mod Tests
use diamond_bot_v.Base.{
  ℕ, zero, suc, ◌+◌, Bool, true, false, not, ◌&&◌, String, Option, none, some, List, [], ◌∷◌,
  reverse, ltb, leb, ◌==◌, if◌then◌else◌, push, retain, any, contains, length, without,
}
use diamond_bot_v.Near.{
  AccountId, Env, only_owner, invalid_threshold, transaction_exists, chain_not_supported,
  signer_not_authorized, threshold_unachievable, Result, ok, panic, ◌>>=◌, ◌>>◌, require,
}

abbrev pub TxId : Type 0
TxId = ℕ

abbrev pub Signature : Type 0
Signature = List ℕ

pub record SupportedChain : Type 0 where
  pub chain_id : ℕ
  pub chain_name : String
  pub bridge_address : String
  pub enabled : Bool

pub record MpcTransaction : Type 0 where
  pub tx_id : TxId
  pub from_chain : ℕ
  pub to_chain : ℕ
  pub sender : String
  pub receiver : String
  pub amount : ℕ
  pub signatures : List (AccountId × Signature)
  pub completed : Bool
  pub timestamp : ℕ
  pub memo : Option String

pub record MpcController : Type 0 where
  pub authorized_signers : List AccountId
  pub threshold : ℕ
  pub pending_transactions : List MpcTransaction
  pub supported_chains : List SupportedChain
  pub owner_id : AccountId

pub new : List AccountId → ℕ → AccountId → Result MpcController
new authorized_signers threshold owner_id = do
  require (ltb 0 threshold && leb threshold (length authorized_signers)) invalid_threshold
  ok (record {
    authorized_signers = authorized_signers;
    threshold = threshold;
    pending_transactions = [];
    supported_chains = [];
    owner_id = owner_id;
  })

pub add_supported_chain : Env → SupportedChain → MpcController → Result (MpcController × Bool)
add_supported_chain env chain c = do
  require (env.predecessor == c.owner_id) only_owner
  ok (
      if any (λ x. x.chain_id == chain.chain_id) c.supported_chains
      then (c, false)
      else (record c { supported_chains = push c.supported_chains chain }, true))

-- The loop of `update_supported_chain`: the first entry with the id is replaced.
pub replace_chain : ℕ → SupportedChain → List SupportedChain → List SupportedChain × Bool
replace_chain chain_id chain [] = ([], false)
replace_chain chain_id chain (x ∷ xs) =
    let (ys, done) = replace_chain chain_id chain xs in
    if x.chain_id == chain_id then (chain ∷ xs, true) else (x ∷ ys, done)

pub update_supported_chain :
    Env → ℕ → SupportedChain → MpcController → Result (MpcController × Bool)
unfolding replace_chain
update_supported_chain env chain_id chain c = do
  require (env.predecessor == c.owner_id) only_owner
  let (chains, done) = replace_chain chain_id chain c.supported_chains
  ok (record c { supported_chains = chains }, done)

pub is_chain_supported : ℕ → MpcController → Bool
is_chain_supported chain_id c = any (λ x. x.chain_id == chain_id && x.enabled) c.supported_chains

-- The arguments of `create_transaction`.
pub record Request : Type 0 where
  pub tx_id : TxId
  pub from_chain : ℕ
  pub to_chain : ℕ
  pub sender : String
  pub receiver : String
  pub amount : ℕ
  pub memo : Option String

abbrev pub transaction : Env → Request → MpcTransaction
transaction env r = record {
  tx_id = r.tx_id;
  from_chain = r.from_chain;
  to_chain = r.to_chain;
  sender = r.sender;
  receiver = r.receiver;
  amount = r.amount;
  signatures = [];
  completed = false;
  timestamp = env.block_timestamp;
  memo = r.memo;
}

abbrev pub is_known : TxId → List MpcTransaction → Bool
is_known tx_id txs = any (λ tx. tx.tx_id == tx_id) txs

pub create_transaction : Env → Request → MpcController → Result (MpcController × Bool)
unfolding is_chain_supported
create_transaction env r c = do
  require (not (is_known r.tx_id c.pending_transactions)) transaction_exists
  require (is_chain_supported r.from_chain c && is_chain_supported r.to_chain c) chain_not_supported
  ok (record c { pending_transactions = push c.pending_transactions (transaction env r) }, true)

abbrev pub has_signed : AccountId → MpcTransaction → Bool
has_signed signer tx = any (λ s. s.0 == signer) tx.signatures

-- A signature on one transaction: `completed` once there are as many as the threshold.
pub add_signature : ℕ → AccountId → Signature → MpcTransaction → MpcTransaction
add_signature threshold signer signature tx = record tx {
  signatures = push tx.signatures (signer, signature);
  completed = if leb threshold (length tx.signatures + 1) then true else tx.completed;
}

-- The loop of `sign_transaction`, up to the first transaction with the id that is not completed.
pub sign_first : ℕ → AccountId → TxId → Signature → List MpcTransaction → List MpcTransaction × Bool
unfolding add_signature
sign_first threshold signer tx_id signature [] = ([], false)
sign_first threshold signer tx_id signature (tx ∷ txs) =
    let (rest, done) = sign_first threshold signer tx_id signature txs in
    if tx.tx_id == tx_id && not tx.completed
    then (if has_signed signer tx
        then (tx ∷ txs, false)
        else (add_signature threshold signer signature tx ∷ txs, true))
    else (tx ∷ rest, done)

pub sign_transaction : Env → TxId → Signature → MpcController → Result (MpcController × Bool)
unfolding sign_first
sign_transaction env tx_id signature c = do
  require (contains c.authorized_signers env.predecessor) signer_not_authorized
  let (txs, done) = sign_first c.threshold env.predecessor tx_id signature c.pending_transactions
  ok (record c { pending_transactions = txs }, done)

find_tx : TxId → List MpcTransaction → Option MpcTransaction
find_tx tx_id [] = none
find_tx tx_id (tx ∷ txs) = if tx.tx_id == tx_id then some tx else find_tx tx_id txs

pub get_transaction : TxId → MpcController → Option MpcTransaction
get_transaction tx_id c = find_tx tx_id c.pending_transactions

pub get_pending_transactions : MpcController → List MpcTransaction
get_pending_transactions c = retain (λ tx. not tx.completed) c.pending_transactions

take : {A : Type 0} → ℕ → List A → List A
take zero xs = []
take (suc n) [] = []
take (suc n) (x ∷ xs) = x ∷ take n xs

pub get_completed_transactions : ℕ → MpcController → List MpcTransaction
get_completed_transactions limit c =
    take limit (reverse (retain (λ tx. tx.completed) c.pending_transactions))

pub add_authorized_signer : Env → AccountId → MpcController → Result (MpcController × Bool)
add_authorized_signer env signer c = do
  require (env.predecessor == c.owner_id) only_owner
  ok (
      if contains c.authorized_signers signer
      then (c, false)
      else (record c { authorized_signers = push c.authorized_signers signer }, true))

pub remove_authorized_signer : Env → AccountId → MpcController → Result (MpcController × Bool)
remove_authorized_signer env signer c = do
  require (env.predecessor == c.owner_id) only_owner
  let signers = without signer c.authorized_signers
  require (leb c.threshold (length signers)) threshold_unachievable
  ok (
    record c { authorized_signers = signers },
    not (length c.authorized_signers == length signers),
  )

pub set_threshold : Env → ℕ → MpcController → Result (MpcController × Bool)
set_threshold env threshold c = do
  require (env.predecessor == c.owner_id) only_owner
  require (ltb 0 threshold && leb threshold (length c.authorized_signers)) invalid_threshold
  ok (record c { threshold = threshold }, true)

pub transfer_ownership : Env → AccountId → MpcController → Result MpcController
transfer_ownership env new_owner_id c = do
  require (env.predecessor == c.owner_id) only_owner
  ok (record c { owner_id = new_owner_id })
