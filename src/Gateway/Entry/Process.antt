-- ===== src/Gateway/Entry/Process.antt =====
-- services/gateway-go/cmd/gateway/main.go: `main` as a process. Its HTTP server answers as in
-- Gateway/Service.
use distributed_ml_inference.Prelude.{String, Bool, true, false, Option, none, some}
use distributed_ml_inference.Models.{Duration}
use distributed_ml_inference.Config.{Environment, from_env}
use distributed_ml_inference.Logging.{info, error}
use distributed_ml_inference.Process.{
  HttpServer, Program, queue, router_conn, acquired, started, emit, log, defer_release, exit, wait,
  shut_down_within, finish, execute, ◌>>=◌, ◌>>◌,
}
use distributed_ml_inference.Process.Tracing.{
  Exporters, exporter_of, begun, begun_frame, begin, execute-begin,
}
use distributed_ml_inference.Process.Orderly.{Life, refused, serves, completes, orderly, refusals}
use distributed_ml_inference.Gateway.Client.{connected, new_router_client}
use distributed_ml_inference.Gateway.Entry.{Settings, settings_of}

-- What follows the opening of the queue.
abbrev run : Bool → Settings → Program HttpServer Unit
run signal settings = do
  emit (
      started (record {
        addr = settings.addr;
        announced = "gateway listening";
        failure = "gateway server stopped";
      }))
  wait signal
  log info "shutting down gateway"
  shut_down_within settings.addr

-- What follows the dialling of the router, which gave this error or none.
abbrev dialled : Bool → Environment → Settings → Option String → Program HttpServer Unit
dialled signal env settings (some _) = do log error "failed to dial router"; exit 1
dialled signal env settings none = do
  defer_release (router_conn settings.router_addr)
  emit (acquired (queue (from_env env)))
  defer_release (queue (from_env env))
  run signal settings

-- `signal` tells whether a signal ever comes.
unfoldable pub main :
    Exporters
    → (dial : String → Option String) → (signal : Bool) → (String → Option Duration)
    → Environment
    → Program HttpServer Unit
unfolding settings_of new_router_client
main exporters dial signal parse_duration env =
    let settings = settings_of parse_duration env in
    do
      begin exporters env "gateway-go"
      err ← new_router_client dial settings.router_addr
      dialled signal env settings err

dialled-Life :
    (env : Environment) (settings : Settings) (traced failure : Option String) (signal : Bool)
    → Life (begun traced) failure signal (
        finish (
          (do err ← connected settings.router_addr failure; dialled signal env settings err)
            (begun_frame env "gateway-go" traced)))
dialled-Life env settings none (some e) signal = refused e (search refusals depth 30)
dialled-Life env settings (some _) (some e) signal = refused e (search refusals depth 30)
dialled-Life env settings none none true = completes (search orderly depth 30)
dialled-Life env settings (some _) none true = completes (search orderly depth 30)
dialled-Life env settings none none false = serves
dialled-Life env settings (some _) none false = serves

-- The gateway starts, and returns when a signal comes with its server stopped and then all that it
-- acquired released in the reverse order; where the router cannot be dialled it exits with 1, has
-- started nothing and has reported an error, and where no signal comes it goes on serving.
pub main-Life :
    (exporters : Exporters) (dial : String → Option String) (signal : Bool)
    (parse_duration : String → Option Duration) (env : Environment)
    → Life
        (begun (exporters (exporter_of env)))
        (dial (settings_of parse_duration env).router_addr)
        signal
        (execute (main exporters dial signal parse_duration env))
unfolding main settings_of new_router_client
main-Life exporters dial signal parse_duration env =
    let settings = settings_of parse_duration env in
    rw
      (execute-begin exporters env "gateway-go"
        (do err ← new_router_client dial settings.router_addr; dialled signal env settings err))
      (dialled-Life env settings (exporters (exporter_of env)) (dial settings.router_addr) signal)
