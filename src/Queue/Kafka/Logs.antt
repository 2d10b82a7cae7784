-- ===== src/Queue/Kafka/Logs.antt =====
-- kafka.go as a backend of the interface, given what its writers do to the topics.
use distributed_ml_inference.Prelude.{
  String, false, none, List, [], ◌∷◌, ◌++◌, ◌==◌, ◌≡◌, refl, ap, ◌∙◌, if◌then◌else◌,
}
use distributed_ml_inference.Queue.{done, Ops, Laws}
use distributed_ml_inference.Queue.Remote.{
  outcome_done, outcome_state, dlq, NotDlq, apart_from_dlq, dlq_apart_from, dlq_inj,
}
use distributed_ml_inference.Queue.Kafka.{
  Client, Kafka, Record, record_of, writer_for, write_to, enqueue, dead_letter,
}
use distributed_ml_inference.Queue.Kafka.Writers.{
  Writers, IsCached, writer_for-IsCached, enqueue-IsCached, dead_letter-IsCached,
}

-- What kafka-go says of `WriteMessages`, over the values that were written to a topic: one more at
-- the end of its writer's topic where it returns no error, and no other topic changed. A call that
-- ends in an error may have written its message.
pub record Logs {S W R P : Type 0} (client : Client S W R P) (ws : Writers client) : Type 0 where
  pub log : S → String → List P
  pub log-write_messages :
      (w : W) (j : String) (r : Record P) (s : S)
      → (client.write_messages w r s).0 ≡ none
      → log (client.write_messages w r s).1 j
        ≡ (if ws.topic_of w == j then log s j ++ r.value ∷ [] else log s j)
  pub log-write_messages_other :
      (w : W) (j : String) (r : Record P) (s : S)
      → (ws.topic_of w == j) ≡ false
      → log (client.write_messages w r s).1 j ≡ log s j

module _ {S W R P : Type 0} (client : Client S W R P) (ws : Writers client)
    (logs : Logs client ws) where
  -- A client whose writers are kept under their topics, beside the cluster.
  abbrev pub Connected : Type 0
  Connected = (q : Kafka W × S) × IsCached client ws q.0

  -- The calls of the interface on such a client, which keep it so.
  abbrev pub kafka_ops : Ops Connected P
  kafka_ops = record {
    enqueue = λ topic p c.
        let after = enqueue client topic p c.0 in
        (after.0, (after.1, enqueue-IsCached client ws topic p c.0 c.1));
    dead_letter = λ topic p reason c.
        let after = dead_letter client topic p reason c.0 in
        (after.0, (after.1, dead_letter-IsCached client ws topic p reason c.0 c.1));
  }

  other_log :
      (topic j : String) (r : Record P) (q : Kafka W × S)
      → IsCached client ws q.0
      → (topic == j) ≡ false
      → logs.log (write_to client topic r q).1.1 j ≡ logs.log q.1 j
  unfolding write_to
  other_log topic j r (k, s) c other =
      let (on_topic, _) = writer_for-IsCached client ws topic k c in
      let w : W = (writer_for client topic k).0 in
      rw (outcome_state (client.write_messages w r s))
        (logs.log-write_messages_other w j r s (ap (λ t. t == j) on_topic ∙ other))

  added :
      (topic j : String) (r : Record P) (q : Kafka W × S)
      → IsCached client ws q.0
      → (write_to client topic r q).0 ≡ done
      → logs.log (write_to client topic r q).1.1 j
        ≡ (if topic == j then logs.log q.1 j ++ r.value ∷ [] else logs.log q.1 j)
  unfolding write_to
  added topic j r (k, s) c h =
      let (on_topic, _) = writer_for-IsCached client ws topic k c in
      let w : W = (writer_for client topic k).0 in
      let ended = outcome_done (client.write_messages w r s) h in
      rw (outcome_state (client.write_messages w r s))
        (rw (logs.log-write_messages w j r s ended) (rw on_topic refl))

  unfoldable kafka_laws : Laws NotDlq kafka_ops
  unfolding enqueue dead_letter
  kafka_laws = record {
    pending = λ c j. logs.log c.0.1 j;
    dead = λ c j. logs.log c.0.1 (dlq j);
    pending-enqueue = λ t j p c _ _ h. added t j (record_of client p []) c.0 c.1 h;
    dead-enqueue =
        λ t j p c is _. other_log t (dlq j) (record_of client p []) c.0 c.1 (apart_from_dlq t j is);
    pending-dead_letter = λ t j p reason c _ is.
        other_log (dlq t) j (record_of client p (("reason", reason) ∷ [])) c.0 c.1
          (dlq_apart_from t j is);
    dead-dead_letter = λ t j p reason c _ _ h.
        added (dlq t) (dlq j) (record_of client p (("reason", reason) ∷ [])) c.0 c.1 h
        ∙ rw (dlq_inj t j);
  }

  -- Enqueue and DeadLetter of kafka.go, on a client whose writers are kept under their topics, keep
  -- what the interface promises of them, for the topics that are not named like a topic of dead
  -- letters: what waits on a topic is what was written to the topic of that name, and its dead
  -- letters are what was written to the topic with ".dlq" behind it. A call that returns no error
  -- puts its payload at the end of its own topic, and whatever it returns it leaves the topics of
  -- the other kind as they are.
  pub kafka-Laws :
      (laws : Laws NotDlq kafka_ops) × ((c : Connected) (j : String)
        → (laws.pending c j ≡ logs.log c.0.1 j) × (laws.dead c j ≡ logs.log c.0.1 (dlq j)))
  unfolding kafka_laws
  kafka-Laws = (kafka_laws, λ c j. (refl, refl))
