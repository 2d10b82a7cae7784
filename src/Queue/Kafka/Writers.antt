-- ===== src/Queue/Kafka/Writers.antt =====
-- The writers of kafka.go: one for each topic that was written to, and each on its topic.
use distributed_ml_inference.Prelude.{
  String, Option-cases, List, [], ◌∷◌, All, All-elem, All-insert, lookup, Elem-of_lookup, ◌≡◌, inl,
  inr,
}
use distributed_ml_inference.Queue.Remote.{dlq}
use distributed_ml_inference.Queue.Kafka.{
  Client, Kafka, Record, new_kafka, record_of, writer_for, write_to, enqueue, dead_letter,
}

-- What kafka-go says of a new writer: it writes to the topic that it was made for.
pub record Writers {S W R P : Type 0} (client : Client S W R P) : Type 0 where
  pub topic_of : W → String
  pub topic_of-new_writer :
      (brokers : List String) (topic : String) → topic_of (client.new_writer brokers topic) ≡ topic

module _ {S W R P : Type 0} (client : Client S W R P) (ws : Writers client) where
  -- Every writer of the map is on the topic that it is kept under.
  abbrev pub IsCached : Kafka W → Type 0
  IsCached k = All (λ e. ws.topic_of e.1 ≡ e.0) k.writers

  pub new_kafka-IsCached : (brokers : String) → IsCached (new_kafka client brokers)
  unfolding new_kafka
  new_kafka-IsCached brokers = tt

  pub writer_for-IsCached :
      (topic : String) (k : Kafka W)
      → IsCached k
      → (ws.topic_of (writer_for client topic k).0 ≡ topic) × IsCached (writer_for client topic k).1
  unfolding writer_for
  writer_for-IsCached topic k h = elim (Option-cases (lookup topic k.writers)) [
    | inl absent ↦
        rw (absent, writer_for)
          (
            ws.topic_of-new_writer k.brokers topic,
            All-insert (λ e. ws.topic_of e.1 ≡ e.0) topic (client.new_writer k.brokers topic)
                k.writers (ws.topic_of-new_writer k.brokers topic) h,
          )
    | inr (w, found) ↦
        rw (found, writer_for)
          (
            All-elem (λ e. ws.topic_of e.1 ≡ e.0) k.writers h
                (Elem-of_lookup topic k.writers found),
            h,
          )
  ]

  pub write_to-IsCached :
      (topic : String) (r : Record P) (q : Kafka W × S)
      → IsCached q.0
      → IsCached (write_to client topic r q).1.0
  unfolding write_to
  write_to-IsCached topic r q h = (writer_for-IsCached topic q.0 h).1

  pub enqueue-IsCached :
      (topic : String) (p : P) (q : Kafka W × S)
      → IsCached q.0
      → IsCached (enqueue client topic p q).1.0
  unfolding enqueue
  enqueue-IsCached topic p q h = write_to-IsCached topic (record_of client p []) q h

  pub dead_letter-IsCached :
      (topic : String) (p : P) (reason : String) (q : Kafka W × S)
      → IsCached q.0
      → IsCached (dead_letter client topic p reason q).1.0
  unfolding dead_letter
  dead_letter-IsCached topic p reason q h =
      write_to-IsCached (dlq topic) (record_of client p (("reason", reason) ∷ [])) q h
