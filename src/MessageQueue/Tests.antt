-- ===== src/MessageQueue/Tests.antt =====
-- Tests of the message queue, over a server in which every command succeeds.
use diamond_bot_v.Base.{ℕ, ◌≡◌, refl, true, [], none, some}
use diamond_bot_v.Redis.{done, Redis}
use diamond_bot_v.Redis.Sample.{SampleStore, sample}
use diamond_bot_v.MessageQueue.{
  normal, high, Message, queue_key, create_metadata, delivered, store_and_queue, send,
  send_with_correlation, take_up, take_next, receive, answer, acknowledge, receive_and_ack, reject,
}

abbrev Store : Type 0
Store = SampleStore ℕ

abbrev empty : SampleStore (Message ℕ)
empty = record { scores = λ k. []; values = λ i. none }

abbrev redis : Redis (Message ℕ)
redis = sample

abbrev first : Message ℕ
first = record { metadata = create_metadata 1 11 1_000_000 4 normal none none none; payload = 7 }

abbrev second : Message ℕ
second = record { metadata = create_metadata 1 12 1_000_001 4 high (some 5) none none; payload = 8 }

abbrev one_sent : SampleStore (Message ℕ)
one_sent = (send redis 1 11 1_000_000 4 7 normal empty).1

abbrev two_sent : SampleStore (Message ℕ)
two_sent = (send_with_correlation redis 1 12 1_000_001 4 8 5 high one_sent).1

abbrev taken : SampleStore (Message ℕ)
taken = (receive redis 1_000_100 4 10 two_sent).1

run-receive : receive redis 1_000_100 4 10 two_sent ≡ (done (some (delivered redis second)), taken)
unfolding send send_with_correlation store_and_queue receive take_next take_up
run-receive = refl

-- The message that was taken second is acknowledged; the first one is put back.
run-receive_and_ack :
    (receive_and_ack redis 1_000_100 4 10 taken).0 ≡ done (some (delivered redis first))
unfolding send send_with_correlation store_and_queue receive take_next take_up receive_and_ack
    acknowledge answer
run-receive_and_ack = refl

run-reject : (reject redis 1_000_200 (delivered redis second) true taken).0 ≡ done tt
unfolding reject
run-reject = refl

first_waits : redis.score (queue_key 4) 11 two_sent ≡ some 1_100
unfolding send send_with_correlation store_and_queue
first_waits = refl

second_back :
    reject redis 1_000_200 (delivered redis second) true taken
    ≡ (done tt, (reject redis 1_000_200 (delivered redis second) true taken).1)
unfolding reject
second_back = refl

sent : send redis 1 11 1_000_000 4 7 normal empty ≡ (done 11, one_sent)
unfolding send store_and_queue
sent = refl

sent_again : send_with_correlation redis 1 12 1_000_001 4 8 5 high one_sent ≡ (done 12, two_sent)
unfolding send_with_correlation store_and_queue
sent_again = refl
