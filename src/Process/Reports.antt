-- ===== src/Process/Reports.antt =====
-- Which lines of a process are written, by its logger's level.
use distributed_ml_inference.Prelude.{
  String, Bool, true, false, some, List, [], ◌∷◌, Elem, here, there, ◌==◌, ◌≡◌, refl, if◌then◌else◌,
}
use distributed_ml_inference.Config.{Environment}
use distributed_ml_inference.Logging.{
  Level, debug, info, warn, error, Logger, getenv, new_logger, writes,
}
use distributed_ml_inference.Process.{Resource, Event, logged, Outcome, exited}
use distributed_ml_inference.Process.Orderly.{Refused, reports, Life, refused}

-- The lines that a logger writes of what a process does.
unfoldable pub written : {T : Type 0} → Logger → List (Event T) → List (Level × String)
written log [] = []
written log (logged level text ∷ es) =
    let rest = written log es in if writes log level then (level, text) ∷ rest else rest
written log (_ ∷ es) = written log es

-- A logger of either level writes the lines that are not for debugging.
writes_at :
    (service : String) (b : Bool)
    → let log : Logger = record { level = if b then debug else info; service = service } in
      (writes log debug ≡ b)
      × (writes log info ≡ true)
      × (writes log warn ≡ true)
      × (writes log error ≡ true)
writes_at service true = (refl, refl, refl, refl)
writes_at service false = (refl, refl, refl, refl)

written_later :
    {line : Level × String} (b : Bool) (first : Level × String) (rest : List (Level × String))
    → Elem {A = Level × String} line rest
    → Elem {A = Level × String} line (if b then first ∷ rest else rest)
written_later true first rest e = there e
written_later false first rest e = e

module _ (env : Environment) (service : String) where
  -- Debug lines are written where LOG_LEVEL is "debug", and the others always.
  pub writes-levels :
      let log = new_logger env service in
      (writes log debug ≡ (getenv env "LOG_LEVEL" == "debug"))
      × (writes log info ≡ true)
      × (writes log warn ≡ true)
      × (writes log error ≡ true)
  unfolding new_logger
  writes-levels = writes_at service (getenv env "LOG_LEVEL" == "debug")

  -- A process that refuses to start writes a line at the level of errors, whatever its environment.
  pub Refused-written :
      {T : Type 0} {rs held : List Resource} (es : List (Event T))
      → Refused rs held es
      → (text : String) × Elem {A = Level × String}
          (error, text)
          (written (new_logger env service) es)
  unfolding written
  Refused-written _ (reports text) = (text, rw (writes-levels.3) here)
  Refused-written _ (Refused.logs {es = es} level text later) =
      let (line, e) = Refused-written es later in
      (line, written_later (writes (new_logger env service) level) (level, text) _ e)
  Refused-written _ (Refused.acquires {es = es} r later) = Refused-written es later
  Refused-written _ (Refused.traces {es = es} _ _ later) = Refused-written es later

  -- A process whose life is one of those, and whose start fails, exits with 1 and has written a line
  -- at the level of errors, whatever its environment.
  pub Life-written :
      {T : Type 0} {held : List Resource} {err : String} {signal : Bool} (o : Outcome T)
      → Life held (some err) signal o
      → (o.end ≡ exited 1)
        × (text : String) × Elem {A = Level × String}
            (error, text)
            (written (new_logger env service) o.trace)
  Life-written _ (refused {es = es} err later) =
      let (text, line) = Refused-written es later in (refl, text, line)
