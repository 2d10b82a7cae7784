-- ===== src/Router/Registry/Keyed.antt =====
-- When the worker map of registry.go is keyed by the workers' ids.
use distributed_ml_inference.Prelude.{
  ℤ, String, ◌≡◌, refl, ◌==◌, some, All, All-elem, Distinct, keys, lookup, lookup-insert,
  All-insert, Distinct-insert, Elem-of_lookup, Option-cases, inl, inr, if◌then◌else◌,
}
use distributed_ml_inference.Models.{Time, Duration}
use distributed_ml_inference.Router.Registry.{
  Worker, Registry, new_registry, stamp, register, beat, heartbeat,
}

abbrev pub IsNamed : String × Worker → Type 0
IsNamed e = e.1.id ≡ e.0

pub record IsKeyed (r : Registry) : Type 0 where
  pub named : All IsNamed r.workers
  pub distinct : Distinct (keys r.workers)

pub new_registry-IsKeyed : (stale_after : Duration) → IsKeyed (new_registry stale_after)
unfolding new_registry
new_registry-IsKeyed stale_after = record { named = tt; distinct = tt }

pub register-IsKeyed :
    (now : Time) (w : Worker) (r : Registry) → IsKeyed r → IsKeyed (register now w r)
unfolding register
register-IsKeyed now w r h = record {
  named = All-insert IsNamed w.id (stamp now w) r.workers refl h.named;
  distinct = Distinct-insert w.id (stamp now w) r.workers h.distinct;
}

-- A worker that is found under an id has that id.
pub id_of_lookup :
    (id : String) {w : Worker} (r : Registry) → IsKeyed r → lookup id r.workers ≡ some w → w.id ≡ id
id_of_lookup id r h found = All-elem IsNamed r.workers h.named (Elem-of_lookup id r.workers found)

pub heartbeat-IsKeyed :
    (now : Time) (id : String) (latency_ms in_flight : ℤ) (r : Registry)
    → IsKeyed r
    → IsKeyed (heartbeat now id latency_ms in_flight r)
unfolding heartbeat
heartbeat-IsKeyed now id l n r h = elim (Option-cases (lookup id r.workers)) [
  | inl absent ↦ rw (absent, heartbeat) h
  | inr (w, found) ↦
      rw (found, heartbeat)
        (record {
          named =
              All-insert IsNamed id (beat now l n w) r.workers (id_of_lookup id r h found) h.named;
          distinct = Distinct-insert id (beat now l n w) r.workers h.distinct;
        })
]

-- What the map holds under an id after each operation.
pub lookup-register :
    (now : Time) (w : Worker) (r : Registry) (j : String)
    → lookup j (register now w r).workers
      ≡ (if w.id == j then some (stamp now w) else lookup j r.workers)
unfolding register
lookup-register now w r j = lookup-insert w.id j (stamp now w) r.workers
