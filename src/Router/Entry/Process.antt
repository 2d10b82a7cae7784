-- ===== src/Router/Entry/Process.antt =====
-- services/router-go/cmd/router/main.go: `main` as a process. net.Listen is a parameter, with the
-- text of its error.
use distributed_ml_inference.Prelude.{
  String, Bool, true, false, ◌&&◌, if◌then◌else◌, Option, none, some, List, [], ◌∷◌,
}
use distributed_ml_inference.Models.{Duration}
use distributed_ml_inference.Config.{Environment}
use distributed_ml_inference.Logging.{Level, info, error}
use distributed_ml_inference.Process.{
  HttpServer, Program, listening, started, stopped, emit, log, exit, wait, shut_down_within, finish,
  execute, hangs, ◌>>◌,
}
use distributed_ml_inference.Process.Tracing.{
  Exporters, exporter_of, begun, begun_frame, begin, execute-begin,
}
use distributed_ml_inference.Process.Orderly.{Life, refused, serves, completes, orderly, refusals}
use distributed_ml_inference.Router.Entry.{Settings, settings_of}

-- The goroutines of the router: its gRPC server, and the HTTP server of its metrics.
pub data Task : Type 0 where
  grpc : (addr : String) → Task
  http : HttpServer → Task

-- The goroutine of the gRPC server, once Serve returned this error or none.
unfoldable pub serving_grpc : Option String → List (Level × String)
serving_grpc none = (info, "router gRPC listening") ∷ []
serving_grpc (some _) = (info, "router gRPC listening") ∷ (error, "grpc server stopped") ∷ []

-- GracefulStop waits for the calls that are pending, of StreamPredict too: `drains` tells whether
-- they all end.
abbrev stop : Bool → Program Task Unit
stop drains f = if drains then emit stopped f else (hangs, f)

-- What follows the start of the gRPC server.
abbrev run : Bool → Bool → Settings → Program Task Unit
run signal drains settings = do
  emit (
      started (
        http (record {
          addr = settings.metrics_addr;
          announced = "router metrics listening";
          failure = "metrics server stopped";
        })))
  wait signal
  log info "shutting down router"
  stop drains
  shut_down_within settings.metrics_addr

-- What follows the call of net.Listen, which gave this error or none.
abbrev opened : Bool → Bool → Settings → Option String → Program Task Unit
opened signal drains settings (some _) = do log error "failed to listen"; exit 1
opened signal drains settings none = do
  emit (listening settings.grpc_addr)
  emit (started (grpc settings.grpc_addr))
  run signal drains settings

-- `signal` tells whether a signal ever comes.
unfoldable pub main :
    Exporters
    → (listen : String → Option String) → (signal drains : Bool) → (String → Option Duration)
    → Environment
    → Program Task Unit
unfolding settings_of
main exporters listen signal drains parse_duration env =
    let settings = settings_of parse_duration env in
    do begin exporters env "router-go"; opened signal drains settings (listen settings.grpc_addr)

opened-Life :
    (env : Environment) (settings : Settings) (traced failure : Option String)
    (signal drains : Bool)
    → Life
        (begun traced)
        failure
        (signal && drains)
        (finish (opened signal drains settings failure (begun_frame env "router-go" traced)))
opened-Life env settings none (some e) signal drains = refused e (search refusals depth 30)
opened-Life env settings (some _) (some e) signal drains = refused e (search refusals depth 30)
opened-Life env settings none none true true = completes (search orderly depth 30)
opened-Life env settings (some _) none true true = completes (search orderly depth 30)
opened-Life env settings none none true false = serves
opened-Life env settings (some _) none true false = serves
opened-Life env settings none none false drains = serves
opened-Life env settings (some _) none false drains = serves

-- The router starts, and returns when a signal comes and the pending calls end, with both of its servers stopped and then
-- all that it acquired released in the reverse order; where its address cannot be listened to it
-- exits with 1, has started nothing and has reported an error, and where no signal comes, or a
-- pending call never ends, it goes on.
pub main-Life :
    (exporters : Exporters) (listen : String → Option String) (signal drains : Bool)
    (parse_duration : String → Option Duration) (env : Environment)
    → Life
        (begun (exporters (exporter_of env)))
        (listen (settings_of parse_duration env).grpc_addr)
        (signal && drains)
        (execute (main exporters listen signal drains parse_duration env))
unfolding main settings_of
main-Life exporters listen signal drains parse_duration env =
    let settings = settings_of parse_duration env in
    rw
      (execute-begin exporters env "router-go"
        (opened signal drains settings (listen settings.grpc_addr)))
      (opened-Life env settings (exporters (exporter_of env)) (listen settings.grpc_addr) signal
        drains)
