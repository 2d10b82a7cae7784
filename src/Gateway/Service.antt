-- ===== src/Gateway/Service.antt =====
-- services/gateway-go/cmd/gateway/main.go: the requests that the gateway's mux takes to its
-- handlers. The handler of /metrics and net/http's own answers are parameters.
pub mod Routes
pub mod Entering
mod Tests
use distributed_ml_inference.Prelude.{ℕ, String, Option, none, some, List, [], ◌∷◌}
use distributed_ml_inference.Models.{Duration}
use distributed_ml_inference.Queue.{Ops}
use distributed_ml_inference.Metrics.{Prometheus, Set, ResponseWriter}
use distributed_ml_inference.Mux.{
  Pattern, Target, found, method_not_allowed, not_found, target, mux_of,
}
use distributed_ml_inference.Gateway.Auth.{KeySet}
use distributed_ml_inference.Gateway.Ratelimit.{Rate, Limiter}
use distributed_ml_inference.Gateway.Handler
use distributed_ml_inference.Gateway.Handler.{
  Host, InferRequest, Body, Response, handle_healthz, submit_job,
}
use distributed_ml_inference.Gateway.Entry.{Caller, chain, write_response}

pub data Endpoint : Type 0 where
  infer jobs healthz metrics : Endpoint

-- The pattern that `main` registers each handler under.
abbrev pub pattern_of : Endpoint → String
pattern_of infer = "POST /v1/infer"
pattern_of jobs = "POST /v1/jobs"
pattern_of healthz = "GET /healthz"
pattern_of metrics = "GET /metrics"

abbrev pub endpoints : List Endpoint
endpoints = infer ∷ jobs ∷ healthz ∷ metrics ∷ []

unfoldable pub mux : List (Pattern × Endpoint)
unfolding mux_of
mux = mux_of pattern_of endpoints

-- A request, with what the decoder of the handlers makes of its body.
pub record Request : Type 0 where
  pub method : String
  pub parts : List String
  pub elapsed : Duration
  pub caller : Caller
  pub decoded : Option InferRequest

-- What `main` gives to its handlers and middlewares, and their state.
pub record Gateway (C H G L P Q W : Type 0) : Type 0 where
  pub rate : Rate L
  pub prometheus : Prometheus C H G
  pub writer : ResponseWriter Body W
  pub expose : Set C H G → W → W
  pub mux_error : ℕ → W → W
  pub keys : KeySet
  pub ops : Ops Q P
  pub jobs_topic : String

module _ {C H G L P Q W : Type 0} (gateway : Gateway C H G L P Q W) where
  abbrev pub State : Type 0
  State = Set C H G × (Limiter L × Q)

  abbrev pub chained : String → Request → (Q → Option Response × Q) → W → State → Option W × State
  chained path r fn w state =
      chain gateway.rate gateway.prometheus gateway.writer gateway.keys path r.method r.elapsed
        r.caller fn w state

  abbrev pub answered : Host P → Request → Target Endpoint → W → State → Option W × State
  answered host r (found infer _) w state =
      chained "/v1/infer" r (λ q. (some (Handler.infer host r.decoded), q)) w state
  answered host r (found jobs _) w state =
      chained "/v1/jobs" r (submit_job host gateway.ops gateway.jobs_topic r.decoded) w state
  answered host r (found healthz _) w state =
      (some (write_response gateway.writer handle_healthz w), state)
  answered host r (found metrics _) w state = (some (gateway.expose state.0 w), state)
  answered host r method_not_allowed w state = (some (gateway.mux_error 405 w), state)
  answered host r not_found w state = (some (gateway.mux_error 404 w), state)

  -- What the gateway's HTTP server does with a request.
  unfoldable pub serve : Host P → Request → W → State → Option W × State
  unfolding mux target chain
  serve host r w state = answered host r (target mux r.method r.parts) w state
