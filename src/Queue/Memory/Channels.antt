-- ===== src/Queue/Memory/Channels.antt =====
-- The channels and dead letters of memory.go under each operation.
use distributed_ml_inference.Prelude.{
  ◌≢◌, ◌⊎◌, ℕ, ◌<◌, pos, add64, ◌≡◌, refl, sym, ap, ◌∙◌, String, Bool, true, false, ltb, Option,
  none, some, List, [], ◌∷◌, ◌++◌, map, length, lookup, lookup-insert, ◌==◌, eq_iff, if◌then◌else◌,
  Bool-cases, Option-cases, inl, inr, arith,
}
use mathlib.Core.List.{map-append}
use distributed_ml_inference.Queue.{Message, done, hangs, Laws, AnyTopic}
use distributed_ml_inference.Queue.Itoa.{itoa}
use distributed_ml_inference.Queue.Memory.{
  Memory, channel_size, or_nil, channel, set_channel, chan_for, send, enqueue_as, enqueue,
  dead_lettered, dead_letter, memory_ops,
}

module _ {P : Type 0} where
  pub channel-set_channel :
      (t j : String) (msgs : List (Message P)) (m : Memory P)
      → channel j (set_channel t msgs m) ≡ (if t == j then msgs else channel j m)
  unfolding channel set_channel
  channel-set_channel t j msgs m = rw (lookup-insert t j msgs m.topics) (split (t == j))
    where
      split :
          (b : Bool)
          → or_nil (if b then some msgs else lookup j m.topics)
            ≡ (if b then msgs else or_nil (lookup j m.topics))
      split true = refl
      split false = refl

  pub chan_for-channel : (t : String) (m : Memory P) → (chan_for t m).0 ≡ channel t m
  unfolding chan_for channel
  chan_for-channel t m = elim (Option-cases (lookup t m.topics)) [
    | inl absent ↦ rw (absent, chan_for)
    | inr (ch, found) ↦ rw (found, chan_for)
  ]

  channel_absent : (t : String) (m : Memory P) → lookup t m.topics ≡ none → channel t m ≡ []
  unfolding channel
  channel_absent t m absent = rw absent

  set_empty :
      (t j : String) (m : Memory P)
      → lookup t m.topics ≡ none
      → (if t == j then [] else channel j m) ≡ channel j m
  set_empty t j m absent = elim (Bool-cases (t == j)) [
    | inl same ↦ rw same (
        sym (
          sym (ap (λ (k : String). channel k m) ((eq_iff t j).0 same)) ∙ channel_absent t m absent))
    | inr other ↦ rw other
  ]

  pub channel-chan_for : (t j : String) (m : Memory P) → channel j (chan_for t m).1 ≡ channel j m
  unfolding chan_for
  channel-chan_for t j m = elim (Option-cases (lookup t m.topics)) [
    | inl absent ↦ rw (absent, chan_for) (channel-set_channel t j [] m ∙ set_empty t j m absent)
    | inr (ch, found) ↦ rw (found, chan_for)
  ]

  dlq-chan_for : (t : String) (m : Memory P) → (chan_for t m).1.dlq ≡ m.dlq
  unfolding chan_for set_channel
  dlq-chan_for t m = ground arith

  seq-chan_for : (t : String) (m : Memory P) → (chan_for t m).1.seq ≡ m.seq
  unfolding chan_for set_channel
  seq-chan_for t m = ground arith

  send-done :
      (cancelled : Option String) (takes_done : Bool) (t : String) (ch : List (Message P))
      (msg : Message P) (m : Memory P)
      → (send cancelled takes_done t ch msg m).0 ≡ done
      → ((send cancelled takes_done t ch msg m).1 ≡ set_channel t (ch ++ msg ∷ []) m)
        × (length ch < channel_size)
  unfolding send
  send-done none takes_done t ch msg m h = ground arith
  send-done (some e) takes_done t ch msg m h = ground arith

  send-dlq :
      (cancelled : Option String) (takes_done : Bool) (t : String) (ch : List (Message P))
      (msg : Message P) (m : Memory P)
      → (send cancelled takes_done t ch msg m).1.dlq ≡ m.dlq
  unfolding send set_channel
  send-dlq none takes_done t ch msg m = ground arith
  send-dlq (some e) takes_done t ch msg m = ground arith

  send-refused :
      (cancelled : Option String) (takes_done : Bool) (t : String) (ch : List (Message P))
      (msg : Message P) (m : Memory P)
      → (send cancelled takes_done t ch msg m).0 ≢ done
      → (send cancelled takes_done t ch msg m).1 ≡ m
  unfolding send
  send-refused none takes_done t ch msg m h = ground arith
  send-refused (some e) takes_done t ch msg m h = ground arith

  -- The state in which `Enqueue` looks for the channel.
  abbrev pub numbered : Memory P → Memory P
  numbered m = record m { seq = add64 m.seq (pos 1) }

  abbrev pub message_of : String → P → Message P
  message_of id payload = record { id = id; payload = payload; attempt = pos 1 }

  module _ (cancelled : Option String) (takes_done : Bool) (t : String) (p : P) where
    channel-enqueue_as :
        (id j : String) (m : Memory P)
        → (enqueue_as cancelled takes_done t p (some id) m).0 ≡ done
        → (length (channel t m) < channel_size)
          × (channel j (enqueue_as cancelled takes_done t p (some id) m).1
              ≡ (if t == j then channel t m ++ message_of id p ∷ [] else channel j m))
    unfolding enqueue_as
    channel-enqueue_as id j m h =
        let ch = (chan_for t m).0 in
        let (same, room) =
          send-done cancelled takes_done t ch (message_of id p) (chan_for t m).1 h in
        (
          rw (chan_for-channel t m) at room,
          rw same (
              channel-set_channel t j (ch ++ message_of id p ∷ []) (chan_for t m).1
              ∙ rw (chan_for-channel t m, channel-chan_for t j m)),
        )

    channel-enqueue_as_refused :
        (o : Option String) (j : String) (m : Memory P)
        → (enqueue_as cancelled takes_done t p o m).0 ≢ done
        → channel j (enqueue_as cancelled takes_done t p o m).1 ≡ channel j m
    unfolding enqueue_as
    channel-enqueue_as_refused none j m h = refl
    channel-enqueue_as_refused (some id) j m h =
        rw
          (send-refused cancelled takes_done t (chan_for t m).0 (message_of id p) (chan_for t m).1
            h)
          (channel-chan_for t j m)

    dlq-enqueue_as :
        (o : Option String) (m : Memory P) → (enqueue_as cancelled takes_done t p o m).1.dlq ≡ m.dlq
    unfolding enqueue_as
    dlq-enqueue_as none m = refl
    dlq-enqueue_as (some id) m =
        send-dlq cancelled takes_done t (chan_for t m).0 (message_of id p) (chan_for t m).1
        ∙ dlq-chan_for t m

    module _ (m : Memory P) where
      -- An `Enqueue` that returns nil puts the payload, under the next number and at attempt 1,
      -- behind what stands in the topic's channel, which had room, and changes no other channel.
      pub channel-enqueue :
          (enqueue cancelled takes_done t p m).0 ≡ done
          → (id : String) × (itoa (add64 m.seq (pos 1)) ≡ some id)
            × (length (channel t m) < channel_size)
            × ((j : String)
                → channel j (enqueue cancelled takes_done t p m).1
                  ≡ (if t == j then channel t m ++ message_of id p ∷ [] else channel j m))
      unfolding enqueue channel
      channel-enqueue h = elim (Option-cases (itoa (add64 m.seq (pos 1)))) [
        | inl panics ↦ absurd (not_done (rw (panics, enqueue_as) at h))
        | inr (id, numbers) ↦
            let accepted = rw numbers at h in
            (
              id,
              numbers,
              (channel-enqueue_as id t (numbered m) accepted).0,
              λ j. rw numbers (channel-enqueue_as id j (numbered m) accepted).1,
            )
      ]
        where
          not_done : ¬ (hangs ≡ done)
          not_done e = cc

      -- An `Enqueue` that does not return nil changes no channel.
      pub channel-enqueue_refused :
          (j : String)
          → (enqueue cancelled takes_done t p m).0 ≢ done
          → channel j (enqueue cancelled takes_done t p m).1 ≡ channel j m
      unfolding enqueue channel
      channel-enqueue_refused j h =
          channel-enqueue_as_refused (itoa (add64 m.seq (pos 1))) j (numbered m) h

      pub dlq-enqueue : (enqueue cancelled takes_done t p m).1.dlq ≡ m.dlq
      unfolding enqueue channel
      dlq-enqueue = dlq-enqueue_as (itoa (add64 m.seq (pos 1))) (numbered m)

module _ {P : Type 0} where
  -- With room, and a number that `itoa` can write, `Enqueue` returns nil.
  pub enqueue_done :
      (takes_done : Bool) (t : String) (p : P) (m : Memory P) (id : String)
      → itoa (add64 m.seq (pos 1)) ≡ some id
      → length (channel t m) < channel_size
      → (enqueue none takes_done t p m).0 ≡ done
  unfolding enqueue enqueue_as send channel
  enqueue_done takes_done t p m id numbers room =
      rw (numbers, enqueue_as)
        (rw (chan_for-channel t (numbered m)) (rw (small (length (channel t (numbered m))) room)))
    where
      small : (n : ℕ) → n < channel_size → ltb n channel_size ≡ true
      small n h = ground arith

  -- The payloads on a topic, first in first.
  abbrev pub payloads : List (Message P) → List P
  payloads = map (λ msg. msg.payload)

  payloads_snoc :
      (b : Bool) (id : String) (p : P) (xs ys : List (Message P))
      → payloads (if b then xs ++ message_of id p ∷ [] else ys)
        ≡ (if b then payloads xs ++ p ∷ [] else payloads ys)
  payloads_snoc true id p xs ys = rw map-append
  payloads_snoc false id p xs ys = refl

  pub pending-enqueue_memory :
      (t j : String) (p : P) (m : Memory P)
      → (enqueue none false t p m).0 ≡ done
      → payloads (channel j (enqueue none false t p m).1)
        ≡ (if t == j then payloads (channel j m) ++ p ∷ [] else payloads (channel j m))
  pending-enqueue_memory t j p m h =
      let (id, numbers, room, after) = channel-enqueue none false t p m h in
      rw (after j)
        (payloads_snoc (t == j) id p (channel t m) (channel j m) ∙ same_topic (Bool-cases (t == j)))
    where
      same_topic :
          ((t == j) ≡ true) ⊎ ((t == j) ≡ false)
          → (if t == j then payloads (channel t m) ++ p ∷ [] else payloads (channel j m))
            ≡ (if t == j then payloads (channel j m) ++ p ∷ [] else payloads (channel j m))
      same_topic (inl same) = rw (same, (eq_iff t j).0 same)
      same_topic (inr other) = rw other

  pub dead-dead_letter_memory :
      (t j : String) (p : P) (reason : String) (m : Memory P)
      → dead_lettered j (dead_letter t p reason m).1
        ≡ (if t == j then dead_lettered j m ++ p ∷ [] else dead_lettered j m)
  unfolding dead_letter dead_lettered
  dead-dead_letter_memory t j p reason m =
      rw (lookup-insert t j (or_nil (lookup t m.dlq) ++ p ∷ []) m.dlq) (split (Bool-cases (t == j)))
    where
      split :
          ((t == j) ≡ true) ⊎ ((t == j) ≡ false)
          → or_nil (if t == j then some (or_nil (lookup t m.dlq) ++ p ∷ []) else lookup j m.dlq)
            ≡ (if t == j then or_nil (lookup j m.dlq) ++ p ∷ [] else or_nil (lookup j m.dlq))
      split (inl same) = rw (same, (eq_iff t j).0 same)
      split (inr other) = rw other

  pub dead_of_dlq :
      (m n : Memory P) (j : String) → n.dlq ≡ m.dlq → dead_lettered j n ≡ dead_lettered j m
  unfolding dead_lettered
  dead_of_dlq m n j same = rw same

  pub pending-dead_letter_memory :
      (t j : String) (p : P) (reason : String) (m : Memory P)
      → payloads (channel j (dead_letter t p reason m).1) ≡ payloads (channel j m)
  unfolding dead_letter channel
  pending-dead_letter_memory t j p reason m = refl

  -- memory.go keeps the promises of the interface `Queue`.
  abbrev pub memory-Laws : Laws AnyTopic (memory_ops {P = P})
  memory-Laws = record {
    pending = λ m j. payloads (channel j m);
    dead = λ m j. dead_lettered j m;
    pending-enqueue = λ t j p m _ _ h. pending-enqueue_memory t j p m h;
    dead-enqueue =
        λ t j p m _ _. dead_of_dlq m (enqueue none false t p m).1 j (dlq-enqueue none false t p m);
    pending-dead_letter = λ t j p reason m _ _. pending-dead_letter_memory t j p reason m;
    dead-dead_letter = λ t j p reason m _ _ h. dead-dead_letter_memory t j p reason m;
  }

  pub seq-enqueue :
      (cancelled : Option String) (takes_done : Bool) (t : String) (p : P) (m : Memory P)
      → (enqueue cancelled takes_done t p m).1.seq ≡ add64 m.seq (pos 1)
  unfolding enqueue enqueue_as send set_channel
  seq-enqueue cancelled takes_done t p m = seq-enqueue_as (itoa (add64 m.seq (pos 1))) (numbered m)
    where
      seq-send :
          (o : Option String) (ch : List (Message P)) (msg : Message P) (n : Memory P)
          → (send o takes_done t ch msg n).1.seq ≡ n.seq
      seq-send none ch msg n = ground arith
      seq-send (some e) ch msg n = ground arith

      seq-enqueue_as :
          (o : Option String) (n : Memory P)
          → (enqueue_as cancelled takes_done t p o n).1.seq ≡ n.seq
      seq-enqueue_as none n = refl
      seq-enqueue_as (some id) n =
          seq-send cancelled (chan_for t n).0 (message_of id p) (chan_for t n).1 ∙ seq-chan_for t n
