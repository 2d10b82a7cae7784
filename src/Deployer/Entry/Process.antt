-- ===== src/Deployer/Entry/Process.antt =====
-- services/model-deployer-go/cmd/deployer/main.go: `main` as a process, over the parameters of
-- `connect`. Its HTTP server answers as in Deployer/Service.
use distributed_ml_inference.Prelude.{
  String, Bool, Bool-cases, Option, none, some, [], ◌∷◌, ◌⊎◌, inl, inr,
}
use distributed_ml_inference.Config.{Environment}
use distributed_ml_inference.Logging.{info, error}
use distributed_ml_inference.Process.{
  HttpServer, Program, signals, pool, acquired, started, emit, log, defer_release, exit, wait,
  shut_down_within, execute, ◌>>◌,
}
use distributed_ml_inference.Process.Orderly.{Life, refused, serves, completes, orderly, refusals}
use distributed_ml_inference.Deployer.Entry.{Settings, settings_of, Pgx, connect}

abbrev pub error_of {ℓ} : {D : Type ℓ} → String ⊎ D → Option String
error_of (inl e) = some e
error_of (inr _) = none

module _ {S D : Type 0} (pgx : Pgx S D) (schema : String ⊎ String) (signal : Bool) where
  -- What follows a pool of connections that is made.
  abbrev serve : Settings → Program HttpServer Unit
  serve settings = do
    emit (acquired pool)
    defer_release pool
    emit (
        started (record {
          addr = settings.addr;
          announced = "model-deployer listening";
          failure = "server stopped";
        }))
    wait signal
    log info "shutting down model-deployer"
    shut_down_within settings.addr

  -- What follows the answer of `connect`.
  abbrev connected : Settings → String ⊎ D → Program HttpServer Unit
  connected settings (inl _) = do log error "failed to connect to postgres"; exit 1
  connected settings (inr _) = serve settings

  unfoldable pub main : Environment → S → Program HttpServer Unit
  unfolding settings_of
  main env s = do
    emit (acquired signals)
    defer_release signals
    connected (settings_of env) (connect pgx schema (settings_of env).dsn s).0

  connected-Life :
      (env : Environment) (c : String ⊎ D)
      → Life (signals ∷ []) (error_of c) signal (
          execute
            (do emit (acquired signals); defer_release signals; connected (settings_of env) c))
  connected-Life env (inl e) = refused e (search refusals depth 30)
  connected-Life env (inr _) = elim (Bool-cases signal) [
    | inl s ↦ rw s (completes (search orderly depth 30))
    | inr s ↦ rw s serves
  ]

  -- The deployer starts, and returns when a signal comes with its server stopped and then its
  -- connections closed; where Postgres cannot be reached or refuses the schema it exits with 1, has
  -- started nothing and has reported an error, and where no signal comes it goes on serving.
  pub main-Life :
      (env : Environment) (s : S)
      → Life
          (signals ∷ [])
          (error_of (connect pgx schema (settings_of env).dsn s).0)
          signal
          (execute (main env s))
  unfolding main settings_of
  main-Life env s = connected-Life env (connect pgx schema (settings_of env).dsn s).0
