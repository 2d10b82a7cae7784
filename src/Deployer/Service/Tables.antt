-- ===== src/Deployer/Service/Tables.antt =====
-- What the deployer's requests do to its tables.
use distributed_ml_inference.Prelude.{ℕ, String, Option, none, some, List, [], ◌∷◌}
use distributed_ml_inference.Models.{ModelVersion}
use distributed_ml_inference.Metrics.{Prometheus, Set, ResponseWriter}
use distributed_ml_inference.Metrics.Counts.{Served, Runs}
use distributed_ml_inference.Mux.{Values, Target, found, method_not_allowed, not_found, target}
use distributed_ml_inference.Deployer.Registry.{Db}
use distributed_ml_inference.Deployer.Registry.Consistent.{IsConsistent}
use distributed_ml_inference.Deployer.Handler.{Host, Response, Body}
use distributed_ml_inference.Deployer.Handler.Requests.{
  serve-IsConsistent, registers, deploys, rolls_back, splits,
}
use distributed_ml_inference.Deployer.Entry.{route-Runs}
use distributed_ml_inference.Deployer.Service.{
  Endpoint, register, list, production, deploy, rollback, traffic, healthz, metrics, pattern_of,
  mux, Request, handler, handled, answered, serve,
}

-- A handler that keeps consistent tables so.
abbrev Keeps : Option (Db → Response × Db) → Type 0
Keeps none = Unit
Keeps (some fn) = (db : Db) → IsConsistent db → IsConsistent (fn db).1

-- The metrics count what was served, no request is open, and the tables are consistent.
abbrev pub Good : {C H G : Type 0} → Prometheus C H G → String → Set C H G × Db → Type 0
Good prometheus service (set, db) =
    (served : List Served) × Runs prometheus service set 0 served × IsConsistent db

module _ {C H G W : Type 0} (prometheus : Prometheus C H G) (writer : ResponseWriter Body W)
    (expose : Set C H G → W → W) (mux_error : ℕ → W → W)
    (newest_first : List ModelVersion → List ModelVersion) where
  abbrev served_by : Host → Request → W → Set C H G × Db → Set C H G × Db
  served_by host r w state =
      (serve prometheus writer expose mux_error newest_first host r w state).1

  -- The requests that the deployer's server gets, one after the other.
  abbrev pub served_all : List (Host × Request × W) → Set C H G × Db → Set C H G × Db
  served_all [] state = state
  served_all ((host, r, w) ∷ requests) state = served_all requests (served_by host r w state)

  handler-Keeps :
      (e : Endpoint) (host : Host) (r : Request) (values : Values)
      → Keeps (handler newest_first e host r values)
  unfolding handler
  handler-Keeps register host r values =
      serve-IsConsistent newest_first host (registers r.registers)
  handler-Keeps list host r values = λ db h. h
  handler-Keeps production host r values = λ db h. h
  handler-Keeps deploy host r values = serve-IsConsistent newest_first host (deploys _ r.deploys)
  handler-Keeps rollback host r values =
      serve-IsConsistent newest_first host (rolls_back _ r.rolls_back)
  handler-Keeps traffic host r values = serve-IsConsistent newest_first host (splits _ r.splits)
  handler-Keeps healthz host r values = tt
  handler-Keeps metrics host r values = tt

  handled-Good :
      (service : String) (e : Endpoint) (r : Request) (fn : Option (Db → Response × Db)) (w : W)
      (state : Set C H G × Db)
      → Keeps fn
      → Good prometheus service state
      → Good prometheus service
          (handled prometheus writer expose mux_error newest_first e r fn w state).1
  handled-Good service e r none w state keeps good = good
  handled-Good service e r (some fn) w (set, db) keeps (served, runs, consistent) =
      let (_, tables, counted) =
        route-Runs prometheus writer (pattern_of e) r.method r.elapsed fn w set db runs in
      (_, counted, rw tables (keeps db consistent))

  answered-Good :
      (service : String) (host : Host) (r : Request) (t : Target Endpoint) (w : W)
      (state : Set C H G × Db)
      → Good prometheus service state
      → Good prometheus service
          (answered prometheus writer expose mux_error newest_first host r t w state).1
  answered-Good service host r (found e values) w state good =
      handled-Good service e r (handler newest_first e host r values) w state
        (handler-Keeps e host r values) good
  answered-Good service host r method_not_allowed w state good = good
  answered-Good service host r not_found w state good = good

  pub served_all-Good :
      (service : String) (requests : List (Host × Request × W)) (state : Set C H G × Db)
      → Good prometheus service state
      → Good prometheus service (served_all requests state)
  unfolding serve
  served_all-Good service [] state good = good
  served_all-Good service ((host, r, w) ∷ requests) state good =
      served_all-Good service requests (served_by host r w state)
        (answered-Good service host r (target mux r.method r.parts) w state good)
