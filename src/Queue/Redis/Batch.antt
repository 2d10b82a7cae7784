-- ===== src/Queue/Redis/Batch.antt =====
-- One read of redis.go's Consume, given what XACK does to the messages that a group has not acked.
use distributed_ml_inference.Prelude.{
  String, Bool, true, false, not, ◌&&◌, ◌||◌, Option, none, some, Option-cases, List, [], ◌∷◌, keep,
  ◌==◌, ◌≡◌, refl, sym, ◌∙◌, inl, inr, arith,
}
use distributed_ml_inference.Queue.{Message}
use distributed_ml_inference.Queue.Memory.{Handled, ack, nack}
use distributed_ml_inference.Queue.Redis.{Client, XMessage, message_of, deliver}

-- What Redis says of XACK: it takes the id out of the group's pending entries.
pub record Acks {S P : Type 0} (client : Client S P) (topic group : String) : Type 0 where
  pub unacked : S → List String
  pub unacked-xack :
      (id : String) (s : S)
      → unacked (client.xack topic group id s) ≡ keep (λ i. not (id == i)) (unacked s)

-- What a handler returns for a message: nil, or an error.
abbrev pub handled_of : Option String → Handled
handled_of none = ack
handled_of (some e) = nack e

abbrev is_none : Option String → Bool
is_none none = true
is_none (some e) = false

module _ {S P E : Type 0} (client : Client S P) (topic group : String)
    (acks : Acks client topic group) (handler : Message P → S × E → Handled × (S × E))
    (verdict : Message P → Option String)
    (answers : (msg : Message P) (s : S × E) → (handler msg s).0 ≡ handled_of (verdict msg))
    (leaves : (msg : Message P) (s : S × E)
      → acks.unacked (handler msg s).1.0 ≡ acks.unacked s.0) where
  -- Some message of the batch has this id, and its handler returned nil.
  abbrev pub accepted : List (XMessage P) → String → Bool
  accepted [] i = false
  accepted (x ∷ xs) i = (x.id == i && is_none (verdict (message_of client x))) || accepted xs i

  keep-true : (xs : List String) → keep (λ i. true) xs ≡ xs
  unfolding keep
  keep-true [] = refl
  keep-true (x ∷ xs) = rw (keep-true xs)

  -- A message acked, then the rest of the batch.
  keep_acked :
      (id : String) (later : String → Bool) (xs : List String)
      → keep (λ i. not (later i)) (keep (λ i. not (id == i)) xs)
        ≡ keep (λ i. not ((id == i && true) || later i)) xs
  unfolding keep
  keep_acked id later [] = refl
  keep_acked id later (x ∷ xs) = ground (arith, keep_acked id later xs)

  keep_nacked :
      (id : String) (later : String → Bool) (xs : List String)
      → keep (λ i. not (later i)) xs ≡ keep (λ i. not ((id == i && false) || later i)) xs
  unfolding keep
  keep_nacked id later [] = refl
  keep_nacked id later (x ∷ xs) = ground (arith, keep_nacked id later xs)

  -- Where the handler's answer depends on the message alone and the handler leaves the group's
  -- pending entries alone, every message of a batch is handled, and the pending entries lose
  -- exactly those whose handler returned nil.
  pub deliver-unacked :
      (xs : List (XMessage P)) (s : S × E)
      → (s' : S × E) × (deliver client topic group handler xs s ≡ some s')
        × (acks.unacked s'.0 ≡ keep (λ i. not (accepted xs i)) (acks.unacked s.0))
  unfolding deliver
  deliver-unacked [] s = (s, refl, sym (keep-true (acks.unacked s.0)))
  deliver-unacked (x ∷ xs) s =
      let msg : Message P = message_of client x in
      let out : Handled × (S × E) = handler msg s in
      elim (Option-cases (verdict msg)) [
        | inl good ↦
            let after : S × E = (client.xack topic group x.id out.1.0, out.1.1) in
            let (s', returns, rest) = deliver-unacked xs after in
            (
              s',
              rw (answers msg s, deliver) (rw good returns),
              rw good (
                  rest
                  ∙ rw (acks.unacked-xack x.id out.1.0)
                      (rw (leaves msg s) (keep_acked x.id (accepted xs) (acks.unacked s.0)))),
            )
        | inr (e, bad) ↦
            let (s', returns, rest) = deliver-unacked xs out.1 in
            (
              s',
              rw (answers msg s, deliver) (rw bad returns),
              rw bad (rest ∙ rw (leaves msg s) (keep_nacked x.id (accepted xs) (acks.unacked s.0))),
            )
      ]
