-- ===== src/Process/Tracing.antt =====
-- shared/pkg/tracing/tracing.go. The constructors of the exporters are parameters: each gives the
-- text of its error, or none.
use distributed_ml_inference.Prelude.{
  String, Option, none, some, Option-cases, List, [], ◌∷◌, ◌==◌, ◌≡◌, refl, inl, inr, if◌then◌else◌,
}
use distributed_ml_inference.Config.{Environment}
use distributed_ml_inference.Logging.{getenv, warn}
use distributed_ml_inference.Process.{
  Resource, Exporter, otlp, stdout, Frame, Program, provider_set, propagator_set, logged, acquired,
  released, tracing, pure, emit, log, defer_release, signals, finish, execute, ◌>>=◌, ◌>>◌,
}

abbrev pub Exporters : Type 0
Exporters = Exporter → Option String

unfoldable pub exporter_of : Environment → Exporter
exporter_of env =
    let endpoint = getenv env "OTEL_EXPORTER_OTLP_ENDPOINT" in
    if endpoint == "" then stdout else otlp endpoint

module _ {T : Type 0} (exporters : Exporters) (env : Environment) where
  -- Init, with its error; the provider is what it returns the shutdown of.
  unfoldable pub init : String → Program T (Option String)
  unfolding exporter_of
  init service = elim (exporters (exporter_of env)) [
    | some err ↦ pure (some err)
    | none ↦ do
      emit (acquired tracing)
      emit (provider_set service (exporter_of env))
      emit propagator_set
      pure none
  ]

  -- How the `main` functions begin: they listen for signals and set up tracing.
  abbrev pub begin : String → Program T Unit
  begin service = do
    emit (acquired signals)
    defer_release signals
    err ← init service
    elim err [
      | none ↦ defer_release tracing
      | some _ ↦ log warn "tracing init failed, continuing without spans"
    ]

-- What a `main` holds once it began, by the error of the exporter.
abbrev pub begun : Option String → List Resource
begun none = tracing ∷ signals ∷ []
begun (some _) = signals ∷ []

-- What it did then, and what it deferred.
abbrev pub begun_frame : {T : Type 0} → Environment → String → Option String → Frame T
begun_frame env service none = record {
  trace =
      acquired signals
      ∷ acquired tracing
      ∷ provider_set service (exporter_of env)
      ∷ propagator_set
      ∷ [];
  deferred = released tracing ∷ released signals ∷ [];
}
begun_frame env service (some _) = record {
  trace = acquired signals ∷ logged warn "tracing init failed, continuing without spans" ∷ [];
  deferred = released signals ∷ [];
}

-- What follows the beginning of a `main` starts from there.
pub execute-begin :
    {T : Type 0} (exporters : Exporters) (env : Environment) (service : String) (k : Program T Unit)
    → execute (begin exporters env service >> k)
      ≡ finish (k (begun_frame env service (exporters (exporter_of env))))
unfolding init
execute-begin exporters env service k = elim (Option-cases (exporters (exporter_of env))) [
  | inl made ↦ rw (made, init) refl
  | inr (_, err) ↦ rw (err, init) refl
]
