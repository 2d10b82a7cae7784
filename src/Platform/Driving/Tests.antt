-- ===== src/Platform/Driving/Tests.antt =====
-- A vehicle that drives against a gateway whose router is down.
use distributed_ml_inference.Prelude.{
  ℕ, text_append, ◌+◌, ◌-◌, eqb, pos, true, false, none, some, [], ◌∷◌, ◌≡◌, ◌↔◌, refl,
  if◌then◌else◌,
}
use distributed_ml_inference.Proto.{InferenceResponse, status, unavailable, ok}
use distributed_ml_inference.Queue.Memory.{Memory, memory_ops}
use distributed_ml_inference.Metrics.{Prometheus, new_set}
use distributed_ml_inference.Fleet.Vehicle.{Config, send_infer}
use distributed_ml_inference.Gateway.Ratelimit.{Rate, Limiter, new_limiters}
use distributed_ml_inference.Gateway.Handler.{Host, InferRequest, request}
use distributed_ml_inference.Gateway.Entry.Admission.{admits, allowed}
use distributed_ml_inference.Gateway.Service.{Gateway}
use distributed_ml_inference.Platform.Driving.{
  Wire, carried, sent_of, Carries, as_gateway, status_writer, http, caller_of, asked,
  send_infer-answered,
}

-- A bucket of two tokens, which are never put back.
abbrev tokens : Rate ℕ
tokens = record { new_limiter = λ _ _. 2; allow = λ _ n. (if eqb n 0 then false else true, n - 1) }

abbrev prometheus : Prometheus ℕ ℕ ℕ
prometheus = record {
  new_counter_vec = λ namespace name help labels. 0;
  new_histogram_vec = λ namespace name help buckets labels. 0;
  new_gauge = λ namespace name help. 0;
  count = λ ls c. c + 1;
  observe = λ ls v h. h + 1;
  inc = λ g. g + 1;
  dec = λ g. g - 1;
  seconds = λ d. 0;
  itoa = λ code. "";
}

abbrev gateway : Gateway ℕ ℕ ℕ ℕ ℕ (Memory ℕ) ℕ
gateway = record {
  rate = tokens;
  prometheus = prometheus;
  writer = status_writer;
  expose = λ set w. 200;
  mux_error = λ code w. code;
  keys = "k1" ∷ [];
  ops = memory_ops;
  jobs_topic = "jobs";
}

abbrev host : Host ℕ
host = record {
  narrow = λ x. x;
  empty = 0;
  encode_job = λ _. some 0;
  router = λ _. status unavailable "down";
  error_text = λ _ text. text;
  new_id = "r1";
  now = pos 5000000;
}

abbrev idle : Memory ℕ
idle = record { topics = []; dlq = []; seq = pos 0; closed = false }

abbrev limiter : Limiter ℕ
limiter = new_limiters tokens 0 (pos 2)

-- JSON and the path of a URL as they are read.
abbrev wire : Wire InferRequest
wire = record {
  request_error = λ method url. none;
  passage = λ r. carried;
  received = λ headers. headers;
  marshal = as_gateway;
  decode = some;
  parts_of = λ url. "v1" ∷ "infer" ∷ [];
  host = some "10.0.0.1";
  remote_addr = "10.0.0.1:5000";
  at = pos 1;
  elapsed = pos 3;
  refusal = λ code. "refused";
}

abbrev cfg : Config
cfg = record {
  id = "vehicle-1";
  gateway_url = "http://localhost:8080";
  api_key = "k1";
  telemetry_period = pos 1000;
  infer_every = pos 2;
}

wire-Carries : Carries wire cfg (7 ∷ [])
wire-Carries = record { reads = refl; key = refl; path = refl }

send_infer-answered_example :
    ((send_infer
        (http gateway host wire)
        cfg
        (7 ∷ [])
        (new_set prometheus "gateway", (limiter, idle))).0
      ≡ none)
    ↔ ((wire.request_error "POST" (text_append cfg.gateway_url "/v1/infer") ≡ none)
        × (wire.passage (sent_of wire cfg (7 ∷ [])) ≡ carried)
        × (admits gateway.keys cfg.api_key ≡ true)
        × ((allowed gateway.rate (caller_of gateway host wire cfg) limiter).0 ≡ true)
        × (resp : InferenceResponse) × (host.router (request host (as_gateway (asked cfg (7 ∷ []))))
            ≡ ok resp))
send_infer-answered_example =
    send_infer-answered gateway host wire cfg 7 [] (new_set prometheus "gateway") limiter idle
      wire-Carries
