-- ===== src/Platform/Lifecycle.antt =====
-- The lives of the four services, from services/*/cmd/*/main.go.
use distributed_ml_inference.Prelude.{String, Bool, ◌&&◌, Option, [], ◌∷◌, ◌⊎◌}
use distributed_ml_inference.Models.{Duration}
use distributed_ml_inference.Config.{Environment}
use distributed_ml_inference.Process.{signals, execute}
use distributed_ml_inference.Process.Tracing.{Exporters, exporter_of, begun}
use distributed_ml_inference.Process.Orderly.{Life}
use distributed_ml_inference.Gateway.Entry as Gateway
use distributed_ml_inference.Gateway.Entry.Process as GatewayProcess
use distributed_ml_inference.Router.Entry as Router
use distributed_ml_inference.Router.Entry.Process as RouterProcess
use distributed_ml_inference.Scheduler.Entry as Scheduler
use distributed_ml_inference.Scheduler.Entry.Process as SchedulerProcess
use distributed_ml_inference.Deployer.Entry.{Pgx, connect}
use distributed_ml_inference.Deployer.Entry as Deployer
use distributed_ml_inference.Deployer.Entry.Process.{error_of}
use distributed_ml_inference.Deployer.Entry.Process as DeployerProcess

pub main-Life :
    {S D : Type 0} (exporters : Exporters) (dial listen : String → Option String) (pgx : Pgx S D)
    (schema : String ⊎ String) (signal drains : Bool) (parse_duration : String → Option Duration)
    (env : Environment) (s : S)
    → let held = begun (exporters (exporter_of env)) in
      Life held
        (dial (Gateway.settings_of parse_duration env).router_addr)
        signal
        (execute (GatewayProcess.main exporters dial signal parse_duration env))
      × Life held
          (listen (Router.settings_of parse_duration env).grpc_addr)
          (signal && drains)
          (execute (RouterProcess.main exporters listen signal drains parse_duration env))
      × Life held
          (dial (Scheduler.settings_of parse_duration env).router_addr)
          signal
          (execute (SchedulerProcess.main exporters dial signal parse_duration env))
      × Life
          (signals ∷ [])
          (error_of (connect pgx schema (Deployer.settings_of env).dsn s).0)
          signal
          (execute (DeployerProcess.main pgx schema signal env s))
main-Life exporters dial listen pgx schema signal drains parse_duration env s = (
  GatewayProcess.main-Life exporters dial signal parse_duration env,
  RouterProcess.main-Life exporters listen signal drains parse_duration env,
  SchedulerProcess.main-Life exporters dial signal parse_duration env,
  DeployerProcess.main-Life pgx schema signal env s,
)
