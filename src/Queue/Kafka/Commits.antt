-- ===== src/Queue/Kafka/Commits.antt =====
-- The commits of kafka.go's Consume, in one partition of a topic.
use distributed_ml_inference.Prelude.{
  ℕ, ◌<◌, ltb, String, some, ◌≡◌, refl, if◌then◌else◌, arith, ◌+◌,
}
use distributed_ml_inference.Queue.{Message}
use distributed_ml_inference.Queue.Memory.{Handled, ack, nack}
use distributed_ml_inference.Queue.Kafka.{Client, Record, message_of, fetch_once, fetches}

-- What Kafka says of a commit: a group has one position in a partition, the offset that it reads
-- from after a rebalance, and a commit moves it behind the message.
pub record Commits {S W R P : Type 0} (client : Client S W R P) (reader : R) : Type 0 where
  pub position : S → ℕ
  pub position-commit_messages :
      (r : Record P) (s : S)
      → position (client.commit_messages reader r s)
        ≡ (if ltb r.offset (position s) then position s else r.offset + 1)

module _ {S W R P E : Type 0} (client : Client S W R P) (reader : R)
    (commits : Commits client reader) (handler : Message P → S × E → Handled × (S × E)) where
  -- If the handler fails a message and acks the next one that is fetched, which stands later in the
  -- partition, then the two fetches return and leave the group's position past the message that
  -- failed.
  pub nacked_skipped :
      (first second : Record P) (s s₁ s₂ : S) (e : E) (reason : String)
      → client.fetch_message reader s ≡ (some first, s₁)
      → (handler (message_of client first) (s₁, e)).0 ≡ nack reason
      → client.fetch_message reader (handler (message_of client first) (s₁, e)).1.0
        ≡ (some second, s₂)
      → (handler (message_of client second) (s₂, (handler (message_of client first) (s₁, e)).1.1)).0
        ≡ ack
      → first.offset < second.offset
      → (out : S × E) × (fetches client reader handler 2 (s, e) ≡ some out)
        × (first.offset < commits.position out.0)
  unfolding fetches
  nacked_skipped first second s s₁ s₂ e reason f₁ n₁ f₂ a₂ later =
      let out₁ : Handled × (S × E) = handler (message_of client first) (s₁, e) in
      let out₂ : Handled × (S × E) = handler (message_of client second) (s₂, out₁.1.1) in
      let moved = commits.position-commit_messages second out₂.1.0 in
      (
        (client.commit_messages reader second out₂.1.0, out₂.1.1),
        rw (f₁, fetches, fetch_once) (rw n₁ (rw (f₂, fetches, fetch_once) (rw a₂ refl))),
        rw moved (behind (commits.position out₂.1.0)),
      )
    where
      behind : (n : ℕ) → first.offset < (if ltb second.offset n then n else second.offset + 1)
      behind n = ground arith
