-- ===== src/Queue/Memory/Bounds.antt =====
-- How many messages the channels of memory.go hold, through Enqueue, Consume and redelivery.
use distributed_ml_inference.Prelude.{
  ℕ, zero, suc, ◌+◌, ◌≤◌, ltb, String, Bool, true, false, Option, some, Bool-cases, List, [], ◌∷◌,
  ◌++◌, length, length-append, ◌==◌, ◌≡◌, ◌≢◌, refl, ◌⊎◌, inl, inr, if◌then◌else◌, arith, add64,
  pos,
}
use distributed_ml_inference.Queue.{Message, Outcome, done, failed, hangs}
use distributed_ml_inference.Queue.Memory.{
  Memory, channel, channel_size, set_channel, enqueue, Handled, ack, nack, stuck, redeliver,
  after_handler, receive, consume_one, turns,
}
use distributed_ml_inference.Queue.Memory.Channels.{
  channel-set_channel, channel-enqueue, channel-enqueue_refused, message_of,
}

is_done : (o : Outcome) → (o ≡ done) ⊎ (o ≢ done)
is_done done = inl refl
is_done (failed e) = inr (λ h. cc)
is_done hangs = inr (λ h. cc)

module _ {P : Type 0} where
  -- No channel holds more than its buffer.
  abbrev pub IsBounded : Memory P → Type 0
  IsBounded m = (j : String) → length (channel j m) ≤ channel_size

  length_if :
      (b : Bool) (xs ys : List (Message P))
      → length xs ≤ channel_size
      → length ys ≤ channel_size
      → length (if b then xs else ys) ≤ channel_size
  length_if true xs ys h k = h
  length_if false xs ys h k = k

  set_channel-IsBounded :
      (t : String) (msgs : List (Message P)) (m : Memory P)
      → length msgs ≤ channel_size
      → IsBounded m
      → IsBounded (set_channel t msgs m)
  set_channel-IsBounded t msgs m small h j =
      rw (channel-set_channel t j msgs m) (length_if (t == j) msgs (channel j m) small (h j))

  pub enqueue-IsBounded :
      (cancelled : Option String) (takes_done : Bool) (t : String) (p : P) (m : Memory P)
      → IsBounded m
      → IsBounded (enqueue cancelled takes_done t p m).1
  enqueue-IsBounded cancelled takes_done t p m h j =
      elim (is_done (enqueue cancelled takes_done t p m).0) [
        | inl accepted ↦
            let (id, _, room, after) = channel-enqueue cancelled takes_done t p m accepted in
            rw (after j) (
              length_if (t == j) (channel t m ++ message_of id p ∷ []) (channel j m)
                (omega (arith, length-append (channel t m) (message_of id p ∷ []))) (h j))
        | inr refused ↦ rw (channel-enqueue_refused cancelled takes_done t p m j refused) (h j)
      ]

  redeliver-IsBounded :
      {E : Type 0} (handler : Message P → Memory P × E → Handled × (Memory P × E)) (t : String)
      (msg : Message P) (m : Memory P)
      → IsBounded m
      → IsBounded (redeliver handler t msg m)
  unfolding redeliver
  redeliver-IsBounded handler t msg m h =
      let again : Message P = record msg { attempt = add64 msg.attempt (pos 1) } in
      elim (Bool-cases (ltb (length (channel t m)) channel_size)) [
        | inl room ↦ rw room (
            set_channel-IsBounded t (channel t m ++ again ∷ []) m
              (fits (length (channel t m)) room (length-append (channel t m) (again ∷ []))) h)
        | inr full ↦ rw full h
      ]
    where
      fits : (n : ℕ) {k : ℕ} → ltb n channel_size ≡ true → k ≡ n + 1 → k ≤ channel_size
      fits n r e = ground arith

  module _ {E : Type 0} (handler : Message P → Memory P × E → Handled × (Memory P × E))
      (returns : (msg : Message P) (s : Memory P × E) → (handler msg s).0 ≢ stuck)
      (keeps : (msg : Message P) (s : Memory P × E)
        → IsBounded s.0
        → IsBounded (handler msg s).1.0) where
    -- A call that returns, with the channels within their buffers.
    abbrev pub Bounded : Option (Memory P × E) → Type 0
    Bounded out = (s : Memory P × E) × (out ≡ some s) × IsBounded s.0

    after_handler-Bounded :
        (t : String) (msg : Message P) (out : Handled × (Memory P × E))
        → out.0 ≢ stuck
        → IsBounded out.1.0
        → Bounded (after_handler handler t msg out)
    after_handler-Bounded t msg (ack, s) r h = (s, refl, h)
    after_handler-Bounded t msg (nack reason, s) r h =
        ((redeliver handler t msg s.0, s.1), refl, redeliver-IsBounded handler t msg s.0 h)
    after_handler-Bounded t msg (stuck, s) r h = absurd (r refl)

    receive-Bounded :
        (t : String) (ch : List (Message P)) (m : Memory P) (e : E)
        → length ch ≤ channel_size
        → IsBounded m
        → Bounded (receive handler t ch (m, e))
    receive-Bounded t [] m e small h = ((m, e), refl, h)
    receive-Bounded t (msg ∷ rest) m e small h =
        let popped : Memory P × E = (set_channel t rest m, e) in
        after_handler-Bounded t msg (handler msg popped) (returns msg popped)
          (keeps msg popped (set_channel-IsBounded t rest m (omega arith) h))

    -- On a queue with no more than 1024 messages in any channel, and for a handler of `Consume`
    -- that always returns and keeps the channels so, whatever it answers, every turn returns,
    -- and after it no channel holds more than 1024 messages.
    pub turns-Bounded :
        (n : ℕ) (t : String) (s : Memory P × E) → IsBounded s.0 → Bounded (turns handler n t s)
    unfolding turns consume_one
    turns-Bounded zero t s h = (s, refl, h)
    turns-Bounded (suc n) t (m, e) h =
        let (s', ran, bounded) = receive-Bounded t (channel t m) m e (h t) h in
        let (s'', later, kept) = turns-Bounded n t s' bounded in
        (s'', rw (ran, turns, consume_one) later, kept)
