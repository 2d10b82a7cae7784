-- ===== src/Queue/Memory.antt =====
-- shared/pkg/queue/memory.go: the in-process queue. A method runs under the mutex; a buffered
-- channel is the list of what stands in it.
pub mod Channels
pub mod Bounds
use distributed_ml_inference.Prelude.{
  ℕ, zero, suc, ℤ, pos, add64, String, Bool, true, false, not, ◌&&◌, ltb, Option, none, some, List,
  [], ◌∷◌, ◌++◌, length, lookup, insert, if◌then◌else◌,
}
use distributed_ml_inference.Queue.{Message, Outcome, done, failed, hangs, Ops}
use distributed_ml_inference.Queue.Itoa.{itoa}

pub record Memory (P : Type 0) : Type 0 where
  pub topics : List (String × List (Message P))
  pub dlq : List (String × List P)
  pub seq : ℤ
  pub closed : Bool

abbrev pub channel_size : ℕ
channel_size = 1024

-- m[k] of a map of slices: nil where the key is missing
abbrev pub or_nil {ℓ} : {A : Type ℓ} → Option (List A) → List A
or_nil none = []
or_nil (some xs) = xs

module _ {P : Type 0} where
  -- NewMemory
  unfoldable pub new_memory : Memory P
  new_memory = record { topics = []; dlq = []; seq = pos 0; closed = false }

  -- What stands in a topic's channel; a topic with no channel has nothing.
  unfoldable pub channel : String → Memory P → List (Message P)
  channel topic m = or_nil (lookup topic m.topics)

  unfoldable pub set_channel : String → List (Message P) → Memory P → Memory P
  set_channel topic msgs m = record m { topics = insert topic msgs m.topics }

  -- chanFor: an empty channel is made at the first use.
  unfoldable pub chan_for : String → Memory P → List (Message P) × Memory P
  unfolding set_channel
  chan_for topic m = elim (lookup topic m.topics) [
    | none ↦ ([], set_channel topic [] m)
    | some ch ↦ (ch, m)
  ]

  -- The `select` of `Enqueue`. `cancelled` is ctx.Err() if the context is done; where the channel
  -- has room too, Go takes either case, and `takes_done` says which.
  unfoldable pub send :
      Option String → Bool → String → List (Message P) → Message P → Memory P → Outcome × Memory P
  unfolding set_channel
  send none takes_done topic ch msg m =
      if ltb (length ch) channel_size
      then (done, set_channel topic (ch ++ msg ∷ []) m)
      else (hangs, m)
  send (some e) takes_done topic ch msg m =
      if ltb (length ch) channel_size && not takes_done
      then (done, set_channel topic (ch ++ msg ∷ []) m)
      else (failed e, m)

  -- `Enqueue`, once the message has its number.
  unfoldable pub enqueue_as :
      Option String → Bool → String → P → Option String → Memory P → Outcome × Memory P
  unfolding chan_for send
  enqueue_as cancelled takes_done topic payload none m = (hangs, m)
  enqueue_as cancelled takes_done topic payload (some id) m =
      let (ch, m') = chan_for topic m in
      send cancelled takes_done topic ch (record { id = id; payload = payload; attempt = pos 1 }) m'

  -- `itoa` does not panic on a number that is reached; if it did, the call would not return.
  unfoldable pub enqueue : Option String → Bool → String → P → Memory P → Outcome × Memory P
  unfolding enqueue_as
  enqueue cancelled takes_done topic payload m =
      let m' = record m { seq = add64 m.seq (pos 1) } in
      enqueue_as cancelled takes_done topic payload (itoa m'.seq) m'

  unfoldable pub dead_lettered : String → Memory P → List P
  dead_lettered topic m = or_nil (lookup topic m.dlq)

  unfoldable pub dead_letter : String → P → String → Memory P → Outcome × Memory P
  unfolding dead_lettered
  dead_letter topic payload reason m =
      (done, record m { dlq = insert topic (dead_lettered topic m ++ payload ∷ []) m.dlq })

  unfoldable pub close : Memory P → Memory P
  close m = record m { closed = true }

  -- The queue that a client sees, under a context that is not done.
  abbrev pub memory_ops : Ops (Memory P) P
  memory_ops = record { enqueue = enqueue none false; dead_letter = dead_letter }

-- How a handler ends: an error, or nil.
pub data Handled : Type 0 where
  ack : Handled
  nack : String → Handled
  stuck : Handled

-- `Consume`. The handler works on the queue too, and on a state `E` of its own.
module _ {P E : Type 0} (handler : Message P → Memory P × E → Handled × (Memory P × E)) where
  -- msg.Attempt++, and the send that gives up where the channel is full
  unfoldable pub redeliver : String → Message P → Memory P → Memory P
  unfolding channel set_channel
  redeliver topic msg m =
      let msg' = record msg { attempt = add64 msg.attempt (pos 1) } in
      if ltb (length (channel topic m)) channel_size
      then set_channel topic (channel topic m ++ msg' ∷ []) m
      else m

  abbrev after_handler : String → Message P → Handled × (Memory P × E) → Option (Memory P × E)
  after_handler topic msg (ack, (m, e)) = some (m, e)
  after_handler topic msg (nack reason, (m, e)) = some (redeliver topic msg m, e)
  after_handler topic msg (stuck, (m, e)) = none

  abbrev receive : String → List (Message P) → Memory P × E → Option (Memory P × E)
  receive topic [] s = some s
  receive topic (msg ∷ rest) (m, e) =
      after_handler topic msg (handler msg (set_channel topic rest m, e))

  -- One turn of the loop; `none` if the handler does not return. With an empty channel it waits.
  unfoldable pub consume_one : String → Memory P × E → Option (Memory P × E)
  unfolding redeliver channel
  consume_one topic (m, e) = receive topic (channel topic m) (m, e)

  -- `n` turns of the loop.
  unfoldable pub turns : ℕ → String → Memory P × E → Option (Memory P × E)
  turns zero topic s = some s
  turns (suc n) topic s = elim (consume_one topic s) [ none ↦ none | some s' ↦ turns n topic s' ]

  -- `Consume` under a context that is done after `n` turns; the channel is made first.
  unfoldable pub consume : ℕ → String → Memory P × E → Option (Memory P × E)
  unfolding turns chan_for
  consume n topic (m, e) = turns n topic ((chan_for topic m).1, e)
