-- ===== src/MessageQueue.antt =====
-- The slave node's message queue, `RedisMessageQueue` in network/slave_node/src/message_queue.rs, over
-- a parameter that stands for the Redis server and the cache code around it
-- (network/src/redis_service.rs, common/cache.rs), as a store whose entries do not expire and whose
-- pop does not block. A command that fails ends the method there, with what it has written so far.
-- Ids are made by the caller, JSON round trips, and the clock, in seconds, is past 40,000, so that no
-- score is negative.
pub mod Scores
mod Tests
use diamond_bot_v.Base.{
  ℕ, ◌+◌, ◌-◌, ◌*◌, ◌/◌, ◌%◌, ◌^◌, Bool, true, false, Option, none, some, ltb, if◌then◌else◌,
}
use diamond_bot_v.Redis.{Reply, done, failed, Redis}

pub data MessagePriority : Type 0 where
  low normal high critical : MessagePriority

pub record MessageMetadata : Type 0 where
  pub id : ℕ
  pub queue : ℕ
  pub publisher : ℕ
  pub timestamp : ℕ
  pub retry_count : ℕ
  pub priority : MessagePriority
  pub correlation_id : Option ℕ
  pub reply_to : Option ℕ
  pub expiration : Option ℕ

pub record Message (P : Type 0) : Type 0 where
  pub metadata : MessageMetadata
  pub payload : P

-- `queue:{q}` and `processing:{q}`, which are different keys for any queues.
abbrev pub queue_key : ℕ → ℕ
queue_key q = 2 * q

abbrev pub processing_key : ℕ → ℕ
processing_key q = 2 * q + 1

abbrev pub base_score : MessagePriority → ℕ
base_score low = 0
base_score normal = 100
base_score high = 200
base_score critical = 300

-- The score of `send`, and the one of `reject`.
abbrev pub send_score : MessagePriority → ℕ → ℕ
send_score priority now = base_score priority + now / 1000

abbrev pub requeue_score : MessagePriority → ℕ → ℕ → ℕ
requeue_score priority retry_count now = base_score priority + now / 1000 - retry_count * 10

abbrev pub create_metadata :
    ℕ → ℕ → ℕ → ℕ → MessagePriority → Option ℕ → Option ℕ → Option ℕ → MessageMetadata
create_metadata node_id id now queue priority correlation_id reply_to expiration = record {
  id = id;
  queue = queue;
  publisher = node_id;
  timestamp = now;
  retry_count = 0;
  priority = priority;
  correlation_id = correlation_id;
  reply_to = reply_to;
  expiration = expiration;
}

module _ {P : Type 0} (redis : Redis (Message P)) where
  open redis use {Store, set, get, delete, publish, zadd, zrem, bzpopmax}

  -- A method of the queue: a reply, and the store that it leaves.
  abbrev Method : Type 0 → Type 0
  Method A = Store → Reply A × Store

  infixl 5 ◌>>=◌ ◌>>◌
  abbrev ◌>>=◌ : {A B : Type 0} → Method A → (A → Method B) → Method B
  (m >>= f) s = let (r, s') = m s in elim r [ done a ↦ f a s' | failed ↦ (failed, s') ]

  abbrev ◌>>◌ : {B : Type 0} → Method (Unit {0}) → Method B → Method B
  m >> k = m >>= λ u. k

  abbrev return : {A : Type 0} → A → Method A
  return a s = (done a, s)

  -- What `send` and `send_with_correlation` do with their message.
  pub store_and_queue : ℕ → ℕ → Message P → Method ℕ
  store_and_queue now ttl message = do
    set message.metadata.id message ttl
    zadd (queue_key message.metadata.queue) (send_score message.metadata.priority now)
        message.metadata.id
    return message.metadata.id

  pub send : ℕ → ℕ → ℕ → ℕ → P → MessagePriority → Method ℕ
  unfolding store_and_queue
  send node_id id now queue payload priority = store_and_queue now 3600 (record {
    metadata = create_metadata node_id id now queue priority none none none;
    payload = payload;
  })

  pub send_with_correlation : ℕ → ℕ → ℕ → ℕ → P → ℕ → MessagePriority → Method ℕ
  unfolding store_and_queue
  send_with_correlation node_id id now queue payload correlation_id priority =
      store_and_queue now 3600 (record {
        metadata = create_metadata node_id id now queue priority (some correlation_id) none none;
        payload = payload;
      })

  -- The message that `receive` returns: its count of deliveries goes up.
  abbrev pub delivered : Message P → Message P
  delivered message = record message {
    metadata = record message.metadata {
      retry_count = (message.metadata.retry_count + 1) % 2 ^ 32;
    };
  }

  -- What `receive` does with the id that it has taken from the queue.
  take_up : ℕ → ℕ → ℕ → Option (Message P) → Method (Option (Message P))
  take_up now queue id none = return none
  take_up now queue id (some message) = do
    zadd (processing_key queue) (now + 300) id
    return (some (delivered message))

  -- What it does with the reply of the queue.
  take_next : ℕ → ℕ → Option (ℕ × ℕ) → Method (Option (Message P))
  unfolding take_up
  take_next now queue none = return none
  take_next now queue (some (id, score)) = (λ s. (get id s, s)) >>= take_up now queue id

  pub receive : ℕ → ℕ → ℕ → Method (Option (Message P))
  unfolding take_next
  receive now queue timeout_secs = bzpopmax (queue_key queue) timeout_secs >>= take_next now queue

  -- The reply that `acknowledge` publishes.
  answer : Message P → Option ℕ → Option ℕ → Method (Unit {0})
  answer message (some reply_to) (some correlation_id) = publish correlation_id message
  answer message _ _ = return tt

  pub acknowledge : Message P → Method (Unit {0})
  unfolding answer
  acknowledge message = do
    zrem (processing_key message.metadata.queue) message.metadata.id
    delete message.metadata.id
    answer message message.metadata.reply_to message.metadata.correlation_id

  pub receive_and_ack : ℕ → ℕ → ℕ → Method (Option (Message P))
  unfolding receive acknowledge
  receive_and_ack now queue timeout_secs = do
    received ← receive now queue timeout_secs
    elim received [
      | none ↦ return none
      | some message ↦ do acknowledge message; return (some message)
    ]

  pub reject : ℕ → Message P → Bool → Method (Unit {0})
  reject now message requeue = do
    zrem (processing_key message.metadata.queue) message.metadata.id
    if requeue
        then (if ltb message.metadata.retry_count 5
            then zadd (queue_key message.metadata.queue)
                (requeue_score message.metadata.priority message.metadata.retry_count now)
                message.metadata.id
            else return tt)
        else return tt
