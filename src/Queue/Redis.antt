-- ===== src/Queue/Redis.antt =====
-- shared/pkg/queue/redis.go: the queue on Redis Streams. go-redis is a parameter: its calls take the
-- state of the server and give it back, with the error of the command if there is one.
pub mod Streams
pub mod Batch
use distributed_ml_inference.Prelude.{
  ℕ, zero, suc, ℤ, pos, String, text_append, Bool, true, false, Option, none, some, List, [], ◌∷◌,
  if◌then◌else◌,
}
use distributed_ml_inference.Queue.{Message, Outcome, done, failed, Ops}
use distributed_ml_inference.Queue.Remote.{outcome, dlq}
use distributed_ml_inference.Queue.Memory.{Handled, ack, nack, stuck}

-- The values of a stream's entry: those that the code writes and reads.
pub record Values (P : Type 0) : Type 0 where
  pub payload : Option P
  pub reason : Option String

pub record XMessage (P : Type 0) : Type 0 where
  pub id : String
  pub values : Values P

pub record XStream (P : Type 0) : Type 0 where
  pub stream : String
  pub messages : List (XMessage P)

-- The commands, each with its arguments as go-redis takes them. `empty` is the payload of the empty
-- text, for an entry that has no text under "payload".
pub record Client (S P : Type 0) : Type 0 where
  pub xadd : String → Values P → S → Option String × S
  pub xgroup_create_mkstream : (stream group start : String) → S → Option String × S
  pub xread_group :
      (group consumer : String)
      → List String
      → (count : ℕ) → (block : ℤ) → S
      → Option (List (XStream P)) × S
  pub xack : (stream group id : String) → S → S
  pub close : S → Option String × S
  pub empty : P

module _ {S P : Type 0} (client : Client S P) where
  unfoldable pub enqueue : String → P → S → Outcome × S
  enqueue topic payload s =
      outcome (client.xadd topic (record { payload = some payload; reason = none }) s)

  unfoldable pub dead_letter : String → P → String → S → Outcome × S
  dead_letter topic payload reason s =
      outcome (client.xadd (dlq topic) (record { payload = some payload; reason = some reason }) s)

  unfoldable pub close : S → Outcome × S
  close s = outcome (client.close s)

  abbrev pub redis_ops : Ops S P
  redis_ops = record { enqueue = enqueue; dead_letter = dead_letter }

  -- payload, _ := xmsg.Values["payload"].(string)
  abbrev pub payload_of : Option P → P
  payload_of none = client.empty
  payload_of (some p) = p

  abbrev pub message_of : XMessage P → Message P
  message_of x = record { id = x.id; payload = payload_of x.values.payload; attempt = pos 1 }

  -- `Consume`. The handler works on the server too, and on a state `E` of its own.
  module _ {E : Type 0} (topic group : String)
      (handler : Message P → S × E → Handled × (S × E)) where
    -- What the loop over messages does once the handler has returned; `none` if it has not.
    abbrev pub acked : String → Handled × (S × E) → Option (S × E)
    acked id (ack, (s, e)) = some (client.xack topic group id s, e)
    acked id (nack reason, (s, e)) = some (s, e)
    acked id (stuck, (s, e)) = none

    unfoldable pub deliver : List (XMessage P) → S × E → Option (S × E)
    deliver [] s = some s
    deliver (x ∷ xs) s = elim (acked x.id (handler (message_of x) s)) [
      | none ↦ none
      | some s' ↦ deliver xs s'
    ]

    unfoldable pub deliver_all : List (XStream P) → S × E → Option (S × E)
    unfolding deliver
    deliver_all [] s = some s
    deliver_all (x ∷ xs) s = elim (deliver x.messages s) [
      | none ↦ none
      | some s' ↦ deliver_all xs s'
    ]

    -- A read that fails, or finds nothing within two seconds, is tried again.
    abbrev pub after_read : Option (List (XStream P)) × S → E → Option (S × E)
    after_read (none, s) e = some (s, e)
    after_read (some streams, s) e = deliver_all streams (s, e)

    unfoldable pub read_once : S × E → Option (S × E)
    unfolding deliver_all
    read_once (s, e) =
        after_read
          (client.xread_group group (text_append group "-consumer") (topic ∷ ">" ∷ []) 10
            (pos 2000000000) s)
          e

    unfoldable pub rounds : ℕ → S × E → Option (S × E)
    unfolding read_once
    rounds zero s = some s
    rounds (suc n) s = elim (read_once s) [ none ↦ none | some s' ↦ rounds n s' ]

    -- `Consume` under a context that is done after `n` rounds of the loop.
    unfoldable pub consume : ℕ → S × E → Option (S × E)
    unfolding rounds
    consume n (s, e) = rounds n ((client.xgroup_create_mkstream topic group "0" s).1, e)
