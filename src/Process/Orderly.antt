-- ===== src/Process/Orderly.antt =====
-- What is asked of the life of a process, over the events of its `main`.
use distributed_ml_inference.Prelude.{String, Bool, true, false, Option, none, some, List, [], ◌∷◌}
use distributed_ml_inference.Logging.{Level, error}
use distributed_ml_inference.Process.{
  Exporter, Resource, shutdown_timer, Event, logged, acquired, released, provider_set,
  propagator_set, listening, started, signalled, shut_down, stopped, waited, Outcome, returned,
  exited, hangs,
}

pub data Phase : Type 0 where
  starting serving stopping closing : Phase

-- From a phase with resources held, the last one first, to the end: resources are acquired before
-- the first goroutine starts, a signal is awaited after, then the servers are stopped, and only then
-- are the resources released, each once, in the reverse order, until none is held.
pub data Orderly {T : Type 0} : Phase → List Resource → List (Event T) → Type 0 where
  closed : Orderly closing [] []
  logs :
      {p : Phase} {rs : List Resource} {es : List (Event T)} (level : Level) (text : String)
      → Orderly p rs es
      → Orderly p rs (logged level text ∷ es)
  acquires :
      {rs : List Resource} {es : List (Event T)} (r : Resource)
      → Orderly starting (r ∷ rs) es
      → Orderly starting rs (acquired r ∷ es)
  traces :
      {rs : List Resource} {es : List (Event T)} (service : String) (exporter : Exporter)
      → Orderly starting rs es
      → Orderly starting rs (provider_set service exporter ∷ propagator_set ∷ es)
  listens :
      {rs : List Resource} {es : List (Event T)} (addr : String)
      → Orderly starting rs es
      → Orderly starting rs (listening addr ∷ es)
  starts :
      {rs : List Resource} {es : List (Event T)} (t : T)
      → Orderly serving rs es
      → Orderly starting rs (started t ∷ es)
  starts_more :
      {rs : List Resource} {es : List (Event T)} (t : T)
      → Orderly serving rs es
      → Orderly serving rs (started t ∷ es)
  signals :
      {rs : List Resource} {es : List (Event T)}
      → Orderly stopping rs es
      → Orderly serving rs (signalled ∷ es)
  stops :
      {rs : List Resource} {es : List (Event T)}
      → Orderly stopping rs es
      → Orderly stopping rs (stopped ∷ es)
  waits :
      {rs : List Resource} {es : List (Event T)}
      → Orderly closing rs es
      → Orderly stopping rs (waited ∷ es)
  shuts_down :
      {rs : List Resource} {es : List (Event T)} (addr : String)
      → Orderly closing (shutdown_timer ∷ rs) es
      → Orderly stopping rs (acquired shutdown_timer ∷ shut_down addr ∷ es)
  releases :
      {rs : List Resource} {es : List (Event T)} (r : Resource)
      → Orderly closing rs es
      → Orderly closing (r ∷ rs) (released r ∷ es)

-- A start that fails: no goroutine was started and nothing was released, and the last event is a
-- line at the level of errors. The second list is what is held then.
pub data Refused {T : Type 0} : List Resource → List Resource → List (Event T) → Type 0 where
  reports : {rs : List Resource} (text : String) → Refused rs rs (logged error text ∷ [])
  logs :
      {rs held : List Resource} {es : List (Event T)} (level : Level) (text : String)
      → Refused rs held es
      → Refused rs held (logged level text ∷ es)
  acquires :
      {rs held : List Resource} {es : List (Event T)} (r : Resource)
      → Refused (r ∷ rs) held es
      → Refused rs held (acquired r ∷ es)
  traces :
      {rs held : List Resource} {es : List (Event T)} (service : String) (exporter : Exporter)
      → Refused rs held es
      → Refused rs held (provider_set service exporter ∷ propagator_set ∷ es)

-- The life of a process by what its start gives, `some` with the error that stops it, and whether a
-- signal comes.
pub data Life {T : Type 0} (held : List Resource) : Option String → Bool → Outcome T → Type 0 where
  refused :
      {signal : Bool} {es : List (Event T)} (err : String)
      → Refused [] held es
      → Life held (some err) signal (record { end = exited 1; trace = es })
  serves : {es : List (Event T)} → Life held none false (record { end = hangs; trace = es })
  completes :
      {es : List (Event T)}
      → Orderly starting [] es
      → Life held none true (record { end = returned tt; trace = es })

pub ruleset orderly = (
  closed, Orderly.logs, Orderly.acquires, Orderly.traces, listens, starts, starts_more,
  Orderly.signals, stops, Orderly.waits, shuts_down, releases,
)

pub ruleset refusals = (reports, Refused.logs, Refused.acquires, Refused.traces)
