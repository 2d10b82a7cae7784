-- ===== src/Process.antt =====
-- What the `main` functions of services/*/cmd/*/main.go have in common: a program that logs,
-- acquires resources, defers their release, starts goroutines, waits for a signal and returns, or
-- exits. What it does is recorded in order. `T` is the type of the goroutines that a `main` starts.
pub mod Orderly
pub mod Tracing
pub mod Reports
use distributed_ml_inference.Prelude.{
  ℕ, String, Bool, Option, none, some, List, [], ◌∷◌, ◌++◌, if◌then◌else◌,
}
use distributed_ml_inference.Config.{Backend}
use distributed_ml_inference.Logging.{Level, info, error}

-- Where spans are sent: to a collector, or to stdout.
pub data Exporter : Type 0 where
  otlp : (endpoint : String) → Exporter
  stdout : Exporter

-- What a `main` holds until it releases it: the handler of signals, the tracer provider, the
-- connection to the router, the queue, the pool of database connections and the deadline of the
-- shutdown.
pub data Resource : Type 0 where
  signals tracing pool shutdown_timer : Resource
  router_conn : (addr : String) → Resource
  queue : Backend → Resource

pub data Event (T : Type 0) : Type 0 where
  logged : Level → String → Event T
  acquired released : Resource → Event T
  -- otel.SetTracerProvider, with the service's name, and otel.SetTextMapPropagator
  provider_set : (service : String) → Exporter → Event T
  propagator_set : Event T
  -- net.Listen
  listening : (addr : String) → Event T
  -- the go statement
  started : T → Event T
  -- <-ctx.Done()
  signalled : Event T
  -- Shutdown of the HTTP server with this address, and GracefulStop of the gRPC server
  shut_down : (addr : String) → Event T
  stopped : Event T
  -- wg.Wait()
  waited : Event T

-- How far a program came: to the end of its statement, to os.Exit, or to a wait that never ends.
pub data End (A : Type 0) : Type 0 where
  returned : A → End A
  exited : ℕ → End A
  hangs : End A

pub record Frame (T : Type 0) : Type 0 where
  pub trace : List (Event T)
  -- the deferred calls, the last one first
  pub deferred : List (Event T)

abbrev pub Program : Type 0 → Type 0 → Type 0
Program T A = Frame T → End A × Frame T

module _ {T : Type 0} where
  abbrev pub pure : {A : Type 0} → A → Program T A
  pure a f = (returned a, f)

  abbrev pub emit : Event T → Program T Unit
  emit e f = (returned tt, record f { trace = f.trace ++ e ∷ [] })

  abbrev pub log : Level → String → Program T Unit
  log level text = emit (logged level text)

  -- A deferred call that releases a resource.
  abbrev pub defer_release : Resource → Program T Unit
  defer_release r f = (returned tt, record f { deferred = released r ∷ f.deferred })

  abbrev pub exit : ℕ → Program T Unit
  exit code f = (exited code, f)

  -- <-ctx.Done(), where `signal` tells whether a signal ever comes.
  abbrev pub wait : Bool → Program T Unit
  wait signal f =
      if signal then (returned tt, record f { trace = f.trace ++ signalled ∷ [] }) else (hangs, f)

infixl 5 ◌>>=◌ ◌>>◌
abbrev pub ◌>>=◌ : {T A B : Type 0} → Program T A → (A → Program T B) → Program T B
◌>>=◌ m k f =
    let (r, f') = m f in
    elim r [ returned a ↦ k a f' | exited code ↦ (exited code, f') | hangs ↦ (hangs, f') ]

abbrev pub ◌>>◌ : {T A B : Type 0} → Program T A → Program T B → Program T B
m >> k = m >>= λ _. k

-- What a process did, and its exit status; a process that waits has none.
pub record Outcome (T : Type 0) : Type 0 where
  pub end : End Unit
  pub trace : List (Event T)

-- A `main` that returns runs its deferred calls; os.Exit does not.
abbrev pub finish : {T : Type 0} → End Unit × Frame T → Outcome T
finish (returned a, f) = record { end = returned a; trace = f.trace ++ f.deferred }
finish (exited code, f) = record { end = exited code; trace = f.trace }
finish (hangs, f) = record { end = hangs; trace = f.trace }

abbrev pub execute : {T : Type 0} → Program T Unit → Outcome T
execute program = finish (program (record { trace = []; deferred = [] }))

-- An HTTP server that a goroutine runs, with the lines that the goroutine writes.
pub record HttpServer : Type 0 where
  pub addr : String
  pub announced : String
  pub failure : String

-- What ListenAndServe returns: http.ErrServerClosed, or another error.
pub data ServeError : Type 0 where
  server_closed : ServeError
  serve_failed : String → ServeError

-- The goroutine that runs ListenAndServe, once that returned.
unfoldable pub serving : HttpServer → Option ServeError → List (Level × String)
serving server none = (info, server.announced) ∷ []
serving server (some server_closed) = (info, server.announced) ∷ []
serving server (some (serve_failed _)) = (info, server.announced) ∷ (error, server.failure) ∷ []

-- How the `main` functions stop that server: Shutdown, within a deadline.
abbrev pub shut_down_within : {T : Type 0} → String → Program T Unit
shut_down_within addr = do
  emit (acquired shutdown_timer)
  defer_release shutdown_timer
  emit (shut_down addr)
