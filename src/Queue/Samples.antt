-- ===== src/Queue/Samples.antt =====
-- redis.go and kafka.go on servers that hold their streams as functions, and memory.go under a
-- handler that counts.
use distributed_ml_inference.Prelude.{
  ℕ, suc, ◌+◌, ◌<◌, ltb, leb, pos, String, false, not, Option, none, some, List, [], ◌∷◌, ◌++◌,
  keep, lookup, ◌==◌, ◌≡◌, refl, if◌then◌else◌, arith,
}
use distributed_ml_inference.Queue.{Message, Laws}
use distributed_ml_inference.Queue.Remote.{NotDlq, dlq}
use distributed_ml_inference.Queue.Memory.{Memory, Handled, nack, channel, turns}
use distributed_ml_inference.Queue.Memory.Bounds.{IsBounded, turns-Bounded}
use distributed_ml_inference.Queue.Redis
use distributed_ml_inference.Queue.Redis.{Values, XMessage, redis_ops, deliver}
use distributed_ml_inference.Queue.Redis.Streams.{Appends, payloads, redis-Laws}
use distributed_ml_inference.Queue.Redis.Batch.{Acks, handled_of, accepted, deliver-unacked}
use distributed_ml_inference.Queue.Kafka
use distributed_ml_inference.Queue.Kafka.{Record, Kafka, fetches}
use distributed_ml_inference.Queue.Kafka.Writers.{Writers}
use distributed_ml_inference.Queue.Kafka.Logs.{Logs, Connected, kafka_ops, kafka-Laws}
use distributed_ml_inference.Queue.Kafka.Commits.{Commits, nacked_skipped}

-- The streams of a Redis server, and the messages that its group has not acked.
abbrev Server : Type 0
Server = (String → List (Values String)) × List String

abbrev redis : Redis.Client Server String
redis = record {
  xadd = λ stream v s.
      (none, ((λ other. if stream == other then s.0 other ++ v ∷ [] else s.0 other), s.1));
  xgroup_create_mkstream = λ stream group start s. (none, s);
  xread_group = λ group consumer streams count block s. (none, s);
  xack = λ stream group id s. (s.0, keep (λ i. not (id == i)) s.1);
  close = λ s. (none, s);
  empty = "";
}

abbrev appends : Appends redis
appends = record {
  entries = λ s stream. s.0 stream;
  entries-xadd = λ stream other v s ended. refl;
  entries-xadd_other = λ stream other v s apart. rw apart refl;
}

redis-Laws_example :
    (laws : Laws NotDlq (redis_ops redis)) × ((s : Server) (j : String)
      → (laws.pending s j ≡ payloads redis appends (s.0 j))
        × (laws.dead s j ≡ payloads redis appends (s.0 (dlq j))))
redis-Laws_example = redis-Laws redis appends

abbrev acks : Acks redis "jobs" "schedulers"
acks = record { unacked = λ s. s.1; unacked-xack = λ id s. refl }

abbrev verdict : Message String → Option String
verdict msg = if msg.payload == "bad" then some "no" else none

abbrev entry : String → String → XMessage String
entry id payload = record { id = id; values = record { payload = some payload; reason = none } }

abbrev batch : List (XMessage String)
batch = entry "1" "good" ∷ entry "2" "bad" ∷ []

abbrev server : Server × ℕ
server = (((λ stream. []), "1" ∷ "2" ∷ []), 0)

abbrev judge : {S : Type 0} → Message String → S × ℕ → Handled × (S × ℕ)
judge msg (s, n) = (handled_of (verdict msg), (s, suc n))

deliver-unacked_example :
    (s' : Server × ℕ) × (deliver redis "jobs" "schedulers" judge batch server ≡ some s')
    × (s'.0.1
        ≡ keep
            (λ i. not (
              accepted redis "jobs" "schedulers" acks judge verdict
                (λ m s. refl)
                (λ m s. refl)
                batch
                i))
            ("1" ∷ "2" ∷ []))
deliver-unacked_example =
    deliver-unacked redis "jobs" "schedulers" acks judge verdict (λ msg s. refl) (λ msg s. refl)
      batch server

-- The topics of a Kafka cluster; the offset that is fetched next, and the group's position.
abbrev Cluster : Type 0
Cluster = (String → List String) × ℕ × ℕ

abbrev fetched : ℕ → Record String
fetched offset = record {
  key = "";
  value = if leb offset 0 then "bad" else "good";
  headers = [];
  offset = offset;
}

abbrev kafka : Kafka.Client Cluster String String String
kafka = record {
  new_writer = λ brokers topic. topic;
  write_messages = λ w r s.
      (none, ((λ other. if w == other then s.0 other ++ r.value ∷ [] else s.0 other), s.1, s.2));
  close_writer = λ w s. s;
  new_reader = λ brokers topic group s. (group, s);
  fetch_message = λ reader s. (some (fetched s.1), (s.0, suc s.1, s.2));
  commit_messages = λ reader r s. (s.0, s.1, (if ltb r.offset s.2 then s.2 else r.offset + 1));
  close_reader = λ reader s. s;
}

abbrev writers : Writers kafka
writers = record { topic_of = λ w. w; topic_of-new_writer = λ brokers topic. refl }

abbrev logs : Logs kafka writers
logs = record {
  log = λ s topic. s.0 topic;
  log-write_messages = λ w j r s ended. refl;
  log-write_messages_other = λ w j r s apart. rw apart refl;
}

kafka-Laws_example :
    (laws : Laws NotDlq (kafka_ops kafka writers logs)) × ((c : Connected kafka writers logs)
        (j : String)
      → (laws.pending c j ≡ c.0.1.0 j) × (laws.dead c j ≡ c.0.1.0 (dlq j)))
kafka-Laws_example = kafka-Laws kafka writers logs

abbrev commits : Commits kafka "schedulers"
commits = record { position = λ s. s.2; position-commit_messages = λ r s. refl }

abbrev cluster : Cluster
cluster = ((λ topic. []), 0, 0)

nacked_skipped_example :
    (out : Cluster × ℕ) × (fetches kafka "schedulers" judge 2 (cluster, 0) ≡ some out)
    × (0 < commits.position out.0)
nacked_skipped_example =
    nacked_skipped kafka "schedulers" commits judge (fetched 0) (fetched 1) cluster
      ((λ topic. []), 1, 0) ((λ topic. []), 2, 0) 0 "no" refl refl refl refl (omega arith)

abbrev idle : Memory String
idle = record { topics = []; dlq = []; seq = pos 0; closed = false }

idle-IsBounded : IsBounded idle
unfolding channel lookup
idle-IsBounded j = omega arith

abbrev count : Message String → Memory String × ℕ → Handled × (Memory String × ℕ)
count msg (m, n) = (nack "later", (m, suc n))

turns-Bounded_example :
    (s : Memory String × ℕ) × (turns count 3 "jobs" (idle, 0) ≡ some s) × IsBounded s.0
turns-Bounded_example =
    turns-Bounded count (λ msg s h. absurd (cc)) (λ msg s h. h) 3 "jobs" (idle, 0) idle-IsBounded
