-- ===== src/Scheduler/Entry/Process.antt =====
-- services/scheduler-go/cmd/scheduler/main.go: `main` as a process. grpc.NewClient is a parameter,
-- with the text of its error.
use distributed_ml_inference.Prelude.{String, Bool, true, false, Option, none, some, List, [], ◌∷◌}
use distributed_ml_inference.Models.{Duration}
use distributed_ml_inference.Config.{Environment}
use distributed_ml_inference.Logging.{Level, info, error}
use distributed_ml_inference.Process.{
  HttpServer, Program, queue, router_conn, acquired, started, emit, log, defer_release, exit, wait,
  shut_down_within, finish, execute, ◌>>◌,
}
use distributed_ml_inference.Process.Tracing.{
  Exporters, exporter_of, begun, begun_frame, begin, execute-begin,
}
use distributed_ml_inference.Process.Orderly.{Life, refused, serves, completes, orderly, refusals}
use distributed_ml_inference.Scheduler.{Dispatcher}
use distributed_ml_inference.Scheduler.Entry.{Settings, settings_of}

-- The goroutines of the scheduler: the dispatcher's Run, and the HTTP server of its metrics.
pub data Task : Type 0 where
  dispatch : Dispatcher → Task
  http : HttpServer → Task

-- The goroutine of the dispatcher, once Run returned this error or none.
unfoldable pub dispatching : Option String → List (Level × String)
dispatching none = (info, "scheduler dispatch loop starting") ∷ []
dispatching (some _) =
    (info, "scheduler dispatch loop starting") ∷ (error, "dispatcher stopped") ∷ []

-- What follows the start of the dispatcher.
abbrev run : Bool → Settings → Program Task Unit
run signal settings = do
  emit (
      started (
        http (record {
          addr = settings.metrics_addr;
          announced = "scheduler metrics listening";
          failure = "metrics server stopped";
        })))
  wait signal
  log info "shutting down scheduler"
  shut_down_within settings.metrics_addr

-- What follows the call of grpc.NewClient, which gave this error or none.
abbrev dialled : Bool → Settings → Option String → Program Task Unit
dialled signal settings (some _) = do log error "failed to dial router"; exit 1
dialled signal settings none = do
  emit (acquired (router_conn settings.router_addr))
  defer_release (router_conn settings.router_addr)
  emit (acquired (queue settings.backend))
  defer_release (queue settings.backend)
  emit (started (dispatch settings.dispatcher))
  run signal settings

-- `signal` tells whether a signal ever comes.
unfoldable pub main :
    Exporters
    → (dial : String → Option String) → (signal : Bool) → (String → Option Duration)
    → Environment
    → Program Task Unit
unfolding settings_of
main exporters dial signal parse_duration env =
    let settings = settings_of parse_duration env in
    do begin exporters env "scheduler-go"; dialled signal settings (dial settings.router_addr)

dialled-Life :
    (env : Environment) (settings : Settings) (traced failure : Option String) (signal : Bool)
    → Life
        (begun traced)
        failure
        signal
        (finish (dialled signal settings failure (begun_frame env "scheduler-go" traced)))
dialled-Life env settings none (some e) signal = refused e (search refusals depth 30)
dialled-Life env settings (some _) (some e) signal = refused e (search refusals depth 30)
dialled-Life env settings none none true = completes (search orderly depth 30)
dialled-Life env settings (some _) none true = completes (search orderly depth 30)
dialled-Life env settings none none false = serves
dialled-Life env settings (some _) none false = serves

-- The scheduler starts, and returns when a signal comes with its server stopped and then all that
-- it acquired released in the reverse order; where the router cannot be dialled it exits with 1,
-- has started nothing and has reported an error, and where no signal comes it goes on serving.
pub main-Life :
    (exporters : Exporters) (dial : String → Option String) (signal : Bool)
    (parse_duration : String → Option Duration) (env : Environment)
    → Life
        (begun (exporters (exporter_of env)))
        (dial (settings_of parse_duration env).router_addr)
        signal
        (execute (main exporters dial signal parse_duration env))
unfolding main settings_of
main-Life exporters dial signal parse_duration env =
    let settings = settings_of parse_duration env in
    rw
      (execute-begin exporters env "scheduler-go"
        (dialled signal settings (dial settings.router_addr)))
      (dialled-Life env settings (exporters (exporter_of env)) (dial settings.router_addr) signal)
