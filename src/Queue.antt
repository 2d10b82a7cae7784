-- ===== src/Queue.antt =====
-- shared/pkg/queue: the queue's interface (queue.go) and its in-process backend (memory.go).
pub mod Itoa
pub mod Memory
pub mod Remote
pub mod Redis
pub mod Kafka
mod Tests
mod Samples
use distributed_ml_inference.Prelude.{
  ℤ, ◌≡◌, String, Option, none, some, List, [], ◌∷◌, ◌++◌, ◌==◌, if◌then◌else◌,
}

-- One unit of work, with an opaque payload.
pub record Message (P : Type 0) : Type 0 where
  pub id : String
  pub payload : P
  pub attempt : ℤ

-- How a call on the queue ends: `hangs` is a call that does not return.
pub data Outcome : Type 0 where
  done : Outcome
  failed : String → Outcome
  hangs : Outcome

-- `Enqueue` and `DeadLetter` of the interface `Queue`, on a backend with states `Q`.
pub record Ops (Q P : Type 0) : Type 0 where
  pub enqueue : String → P → Q → Outcome × Q
  pub dead_letter : String → P → String → Q → Outcome × Q

-- What the interface promises, on an abstract view: the payloads that wait on a topic and those
-- that were dead-lettered for it. A backend may want its topics to have other names than those that
-- it gives to dead letters.
pub record Laws {Q P : Type 0} (IsTopic : String → Type 0) (ops : Ops Q P) : Type 0 where
  pub pending : Q → String → List P
  pub dead : Q → String → List P
  pub pending-enqueue :
      (t j : String) (p : P) (q : Q)
      → IsTopic t
      → IsTopic j
      → (ops.enqueue t p q).0 ≡ done
      → pending (ops.enqueue t p q).1 j ≡ (if t == j then pending q j ++ p ∷ [] else pending q j)
  pub dead-enqueue :
      (t j : String) (p : P) (q : Q)
      → IsTopic t
      → IsTopic j
      → dead (ops.enqueue t p q).1 j ≡ dead q j
  pub pending-dead_letter :
      (t j : String) (p : P) (reason : String) (q : Q)
      → IsTopic t
      → IsTopic j
      → pending (ops.dead_letter t p reason q).1 j ≡ pending q j
  pub dead-dead_letter :
      (t j : String) (p : P) (reason : String) (q : Q)
      → IsTopic t
      → IsTopic j
      → (ops.dead_letter t p reason q).0 ≡ done
      → dead (ops.dead_letter t p reason q).1 j ≡ (if t == j then dead q j ++ p ∷ [] else dead q j)

-- A backend that takes every name for a topic.
abbrev pub AnyTopic : String → Type 0
AnyTopic t = Unit

-- What the callers of json.Marshal that drop its error enqueue: no bytes where it returns one.
abbrev pub marshalled : {P : Type 0} → P → Option P → P
marshalled empty none = empty
marshalled empty (some p) = p
