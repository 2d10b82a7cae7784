-- ===== src/Queue/Kafka.antt =====
-- shared/pkg/queue/kafka.go: the queue on kafka-go, which is a parameter: writers `W`, readers `R`,
-- and calls that take the state `S` of the cluster and give it back, with an error if there is one.
pub mod Writers
pub mod Logs
pub mod Commits
use distributed_ml_inference.Prelude.{
  ℕ, zero, suc, ℤ, pos, String, text_append, Option, none, some, List, [], ◌∷◌, lookup, insert,
  split_on,
}
use distributed_ml_inference.Queue.{Message, Outcome, done, failed}
use distributed_ml_inference.Queue.Remote.{outcome, dlq}
use distributed_ml_inference.Queue.Memory.{Handled, ack, nack, stuck}

pub record Record (P : Type 0) : Type 0 where
  pub key : String
  pub value : P
  pub headers : List (String × String)
  pub offset : ℕ

pub record Client (S W R P : Type 0) : Type 0 where
  pub new_writer : (brokers : List String) → (topic : String) → W
  pub write_messages : W → Record P → S → Option String × S
  pub close_writer : W → S → S
  pub new_reader : (brokers : List String) → (topic group : String) → S → R × S
  pub fetch_message : R → S → Option (Record P) × S
  pub commit_messages : R → Record P → S → S
  pub close_reader : R → S → S

pub record Kafka (W : Type 0) : Type 0 where
  pub brokers : List String
  pub writers : List (String × W)

module _ {S W R P : Type 0} (client : Client S W R P) where
  -- NewKafka
  unfoldable pub new_kafka : String → Kafka W
  new_kafka brokers = record { brokers = split_on "," brokers; writers = [] }

  unfoldable pub writer_for : String → Kafka W → W × Kafka W
  writer_for topic k = elim (lookup topic k.writers) [
    | some w ↦ (w, k)
    | none ↦
        let w = client.new_writer k.brokers topic in
        (w, record k { writers = insert topic w k.writers })
  ]

  -- A message with no offset yet, as the writers take it.
  abbrev pub record_of : P → List (String × String) → Record P
  record_of payload headers = record { key = ""; value = payload; headers = headers; offset = 0 }

  -- A writer's call, beside the map that the writer came from.
  unfoldable pub write_to : String → Record P → Kafka W × S → Outcome × (Kafka W × S)
  unfolding writer_for
  write_to topic r (k, s) =
      let found = writer_for topic k in
      let (o, s') = outcome (client.write_messages found.0 r s) in (o, (found.1, s'))

  unfoldable pub enqueue : String → P → Kafka W × S → Outcome × (Kafka W × S)
  unfolding write_to
  enqueue topic payload q = write_to topic (record_of payload []) q

  unfoldable pub dead_letter : String → P → String → Kafka W × S → Outcome × (Kafka W × S)
  unfolding write_to
  dead_letter topic payload reason q =
      write_to (dlq topic) (record_of payload (("reason", reason) ∷ [])) q

  unfoldable pub close_all : List (String × W) → S → S
  close_all [] s = s
  close_all ((topic, w) ∷ ws) s = close_all ws (client.close_writer w s)

  -- Close: the errors of the writers are dropped.
  unfoldable pub close : Kafka W × S → Outcome × (Kafka W × S)
  unfolding close_all
  close (k, s) = (done, (k, close_all k.writers s))

  abbrev pub message_of : Record P → Message P
  message_of r = record { id = r.key; payload = r.value; attempt = pos 1 }

  -- `Consume`. The handler works on the cluster too, and on a state `E` of its own.
  module _ {E : Type 0} (reader : R) (handler : Message P → S × E → Handled × (S × E)) where
    -- A message whose handler returns an error is not committed; `none` if it does not return.
    abbrev pub committed : Record P → Handled × (S × E) → Option (S × E)
    committed r (ack, (s, e)) = some (client.commit_messages reader r s, e)
    committed r (nack reason, (s, e)) = some (s, e)
    committed r (stuck, (s, e)) = none

    -- A fetch that fails is tried again.
    abbrev pub after_fetch : Option (Record P) × S → E → Option (S × E)
    after_fetch (none, s) e = some (s, e)
    after_fetch (some r, s) e = committed r (handler (message_of r) (s, e))

    unfoldable pub fetch_once : S × E → Option (S × E)
    fetch_once (s, e) = after_fetch (client.fetch_message reader s) e

    unfoldable pub fetches : ℕ → S × E → Option (S × E)
    unfolding fetch_once
    fetches zero s = some s
    fetches (suc n) s = elim (fetch_once s) [ none ↦ none | some s' ↦ fetches n s' ]

  -- `Consume` under a context that is done after `n` fetches.
  unfoldable pub consume :
      {E : Type 0}
      → (topic group : String) → (Message P → S × E → Handled × (S × E))
      → ℕ
      → (Kafka W × S) × E
      → Option ((Kafka W × S) × E)
  unfolding fetches
  consume topic group handler n ((k, s), e) =
      let opened = client.new_reader k.brokers topic group s in
      elim (fetches opened.0 handler n (opened.1, e)) [
        | none ↦ none
        | some s' ↦ some ((k, client.close_reader opened.0 s'.0), s'.1)
      ]
