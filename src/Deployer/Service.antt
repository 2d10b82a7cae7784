-- ===== src/Deployer/Service.antt =====
-- services/model-deployer-go/cmd/deployer/main.go: the requests that the deployer's mux takes to its
-- handlers. The handler of /metrics and
-- net/http's own answers are parameters.
pub mod Routes
pub mod Unique
pub mod Tables
pub mod Promotion
mod Tests
use distributed_ml_inference.Prelude.{ℕ, String, Option, none, some, List, [], ◌∷◌, map}
use distributed_ml_inference.Models.{Duration, ModelVersion}
use distributed_ml_inference.Metrics.{Prometheus, Set, ResponseWriter}
use distributed_ml_inference.Mux.{
  Pattern, Values, Target, found, method_not_allowed, not_found, target, mux_of, path_value,
}
use distributed_ml_inference.Deployer.Registry.{Db}
use distributed_ml_inference.Deployer.Handler.{
  Host, Decoded, RegisterRequest, DeployRequest, RollbackRequest, TrafficRequest, Response, Body,
  handle_register, handle_list, handle_production, handle_deploy, handle_rollback, handle_traffic,
  handle_healthz,
}
use distributed_ml_inference.Deployer.Entry.{route, write_response}

pub data Endpoint : Type 0 where
  register list production deploy rollback traffic healthz metrics : Endpoint

-- The pattern that `main` registers each handler under.
abbrev pub pattern_of : Endpoint → String
pattern_of register = "POST /v1/models/register"
pattern_of list = "GET /v1/models/{name}/versions"
pattern_of production = "GET /v1/models/{name}/production"
pattern_of deploy = "POST /v1/models/{name}/deploy"
pattern_of rollback = "POST /v1/models/{name}/rollback"
pattern_of traffic = "POST /v1/models/{name}/traffic"
pattern_of healthz = "GET /healthz"
pattern_of metrics = "GET /metrics"

abbrev pub endpoints : List Endpoint
endpoints = register ∷ list ∷ production ∷ deploy ∷ rollback ∷ traffic ∷ healthz ∷ metrics ∷ []

unfoldable pub mux : List (Pattern × Endpoint)
unfolding mux_of
mux = mux_of pattern_of endpoints

-- A request, with what the decoder of each handler leaves of its body.
pub record Request : Type 0 where
  pub method : String
  pub parts : List String
  pub elapsed : Duration
  pub registers : Decoded RegisterRequest
  pub deploys : Decoded DeployRequest
  pub rolls_back : Decoded RollbackRequest
  pub splits : Decoded TrafficRequest

module _ (newest_first : List ModelVersion → List ModelVersion) where
  -- The handler of an endpoint behind the metrics.
  unfoldable pub handler : Endpoint → Host → Request → Values → Option (Db → Response × Db)
  unfolding path_value
  handler register host r values = some (handle_register host r.registers)
  handler list host r values =
      some (λ db. (handle_list newest_first host (path_value "name" values) db, db))
  handler production host r values =
      some (λ db. (handle_production host (path_value "name" values) db, db))
  handler deploy host r values = some (handle_deploy host (path_value "name" values) r.deploys)
  handler rollback host r values =
      some (handle_rollback newest_first host (path_value "name" values) r.rolls_back)
  handler traffic host r values = some (handle_traffic host (path_value "name" values) r.splits)
  handler healthz host r values = none
  handler metrics host r values = none

module _ {C H G W : Type 0} (prometheus : Prometheus C H G) (writer : ResponseWriter Body W)
    (expose : Set C H G → W → W) (mux_error : ℕ → W → W)
    (newest_first : List ModelVersion → List ModelVersion) where
  abbrev pub State : Type 0
  State = Set C H G × Db

  -- The handlers that `main` registers without `route`.
  abbrev unmeasured : Endpoint → Set C H G → W → W
  unmeasured metrics set w = expose set w
  unmeasured _ set w = write_response writer handle_healthz w

  abbrev pub handled : Endpoint → Request → Option (Db → Response × Db) → W → State → W × State
  handled e r none w (set, db) = (unmeasured e set w, (set, db))
  handled e r (some fn) w state =
      route prometheus writer (pattern_of e) r.method r.elapsed fn w state

  abbrev pub answered : Host → Request → Target Endpoint → W → State → W × State
  answered host r (found e values) w state =
      handled e r (handler newest_first e host r values) w state
  answered host r method_not_allowed w state = (mux_error 405 w, state)
  answered host r not_found w state = (mux_error 404 w, state)

  -- What the deployer's HTTP server does with a request.
  unfoldable pub serve : Host → Request → W → State → W × State
  unfolding mux target handler route
  serve host r w state = answered host r (target mux r.method r.parts) w state
