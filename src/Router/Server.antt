-- ===== src/Router/Server.antt =====
-- services/router-go/internal/handler/grpc.go: the gRPC server. A method takes the registry and
-- returns its reply and the registry after it. What stands outside of the program (the worker's
-- HTTP endpoint, encoding/json, fmt) is a `Host`; the times that a call reads are `Instants`.
mod Tests
pub mod Pool
pub mod Replies
use distributed_ml_inference.Prelude.{
  ℕ, ℤ, pos, String, text_append, true, ◌||◌, Option, none, some, List, [], ◌∷◌, ◌⊎◌, inl, inr,
  ◌-ℤ◌, ltb_ℤ, eqb, clamp64, trunc_div, floor_div, sub64, int32_of, ◌==◌, if◌then◌else◌,
}
use distributed_ml_inference.Models.{
  F32, Time, Precision, precision_fp32, precision_fp16, precision_int8, precision_int4, Priority,
  priority_normal, priority_high, priority_critical,
}
use distributed_ml_inference.Proto
use distributed_ml_inference.Proto.{
  InferenceRequest, InferenceResponse, HealthResponse, RegisterWorkerRequest,
  RegisterWorkerResponse, Rpc, ok, status, invalid_argument, unavailable, internal,
}
use distributed_ml_inference.Router.Registry.{
  Worker, Registry, register, heartbeat, snapshot, count,
}
use distributed_ml_inference.Router.Selector.{Selection, selected, no_eligible, select}

unfoldable pub precision_to_domain : Proto.Precision → Precision
precision_to_domain Proto.Precision.fp32 = precision_fp32
precision_to_domain Proto.Precision.fp16 = precision_fp16
precision_to_domain Proto.Precision.int8 = precision_int8
precision_to_domain Proto.Precision.int4 = precision_int4
precision_to_domain _ = ""

unfoldable pub priority_to_domain : Proto.Priority → Priority
priority_to_domain Proto.Priority.high = priority_high
priority_to_domain Proto.Priority.critical = priority_critical
priority_to_domain _ = priority_normal

pub record WorkerPredictRequest : Type 0 where
  pub features : List F32
  pub precision : String
  pub model_name : String

pub record WorkerPredictResponse : Type 0 where
  pub output : List F32
  pub predicted_label : String
  pub confidence : F32
  pub model_version : String
  pub precision_used : String

-- What a failed step says, before `fmt` writes it out.
pub data Failure : Type 0 where
  route : String → Precision → ℕ → Failure
  build_request : String → Failure
  call_worker : String → String → Failure
  worker_returned : String → ℕ → String → Failure
  decode_response : String → Failure

-- What `HTTPClient.Do` gives: an error, or a status and a body.
pub data Reply : Type 0 where
  failed : String → Reply
  replied : ℕ → String → Reply

pub record Host : Type 0 where
  pub describe : Failure → String
  -- the error of http.NewRequestWithContext at a URL, if any
  pub new_request : String → Option String
  pub send : String → WorkerPredictRequest → Reply
  pub decode : String → String ⊎ WorkerPredictResponse

pub record Instants : Type 0 where
  pub start : Time
  pub routed : Time
  pub replied : Time
  pub recorded : Time

module _ (t : Instants) (host : Host) (req : InferenceRequest) where
  unfoldable pub queue_ms : ℤ
  queue_ms =
      if ltb_ℤ (pos 0) req.submitted_at_unix_ms
      then sub64 (floor_div t.start 1000000) req.submitted_at_unix_ms
      else pos 0

  -- time.Since(start).Milliseconds()
  unfoldable pub latency : ℤ
  latency = trunc_div (clamp64 (t.replied -ℤ t.start)) 1000000

  unfoldable pub response : Worker → WorkerPredictResponse → InferenceResponse
  unfolding latency queue_ms
  response w wr = record {
    request_id = req.request_id;
    worker_id = w.id;
    model_name = req.model_name;
    model_version = wr.model_version;
    precision_used = req.preferred_precision;
    output = wr.output;
    predicted_label = wr.predicted_label;
    confidence = wr.confidence;
    latency_ms = latency;
    queue_time_ms = queue_ms;
  }

  unfoldable pub finish :
      Worker → String ⊎ WorkerPredictResponse → Registry → Rpc InferenceResponse × Registry
  unfolding response heartbeat
  finish w (inl e) r = (status internal (host.describe (decode_response e)), r)
  finish w (inr wr) r = (ok (response w wr), heartbeat t.recorded w.id latency w.in_flight r)

  unfoldable pub receive : Worker → Reply → Registry → Rpc InferenceResponse × Registry
  unfolding finish
  receive w (failed e) r = (status unavailable (host.describe (call_worker w.id e)), r)
  receive w (replied code body) r =
      if eqb code 200
      then finish w (host.decode body) r
      else (status internal (host.describe (worker_returned w.id code body)), r)

  pub body_for_worker : WorkerPredictRequest
  unfolding precision_to_domain
  body_for_worker = record {
    features = req.features;
    precision = precision_to_domain req.preferred_precision;
    model_name = req.model_name;
  }

  unfoldable pub forward : Worker → Registry → Rpc InferenceResponse × Registry
  unfolding receive body_for_worker
  forward w r =
      let url = text_append w.endpoint "/predict" in
      elim (host.new_request url) [
        | some e ↦ (status internal (host.describe (build_request e)), r)
        | none ↦ receive w (host.send url body_for_worker) r
      ]

  unfoldable pub after_select : Selection → Registry → Rpc InferenceResponse × Registry
  unfolding forward
  after_select (no_eligible model preferred live) r =
      (status unavailable (host.describe (route model preferred live)), r)
  after_select (selected w) r = forward w r

module _ (round : ℤ → ℤ) where
  -- The worker that `Predict` asks `routing.Select` for.
  unfoldable pub routed_to : Instants → InferenceRequest → Registry → Selection
  unfolding snapshot select
  routed_to t req r =
      select round (snapshot t.routed r) req.model_name
        (precision_to_domain req.preferred_precision) (priority_to_domain req.priority)

  unfoldable pub predict :
      Instants → Host → InferenceRequest → Registry → Rpc InferenceResponse × Registry
  unfolding after_select routed_to
  predict t host req r = after_select t host req (routed_to t req r) r

-- What `stream.Recv` gives, with the surroundings of the call that follows and whether `Send` works.
pub data Received : Type 0 where
  eof : Received
  broken : String → Received
  message : Instants → Host → InferenceRequest → Option String → Received

-- How `StreamPredict` ends: `closed` is `return nil`.
pub data StreamEnd : Type 0 where
  closed : StreamEnd
  waiting : StreamEnd
  recv_error : String → StreamEnd
  call_error : Proto.Code → String → StreamEnd
  send_error : String → StreamEnd

pub record StreamRun : Type 0 where
  pub sent : List InferenceResponse
  pub ended : StreamEnd
  pub registry : Registry

abbrev pub send_first : InferenceResponse → StreamRun → StreamRun
send_first resp run = record run { sent = resp ∷ run.sent }

abbrev pub stream_answer :
    Rpc InferenceResponse → Option String → Registry → (Registry → StreamRun) → StreamRun
stream_answer (status c m) sending r rest = record {
  sent = [];
  ended = call_error c m;
  registry = r;
}
stream_answer (ok resp) (some e) r rest = record { sent = []; ended = send_error e; registry = r }
stream_answer (ok resp) none r rest = send_first resp (rest r)

module _ (round : ℤ → ℤ) where
  -- The loop of `StreamPredict` over what is received, until it returns; `waiting` if it has not.
  unfoldable pub stream_predict : List Received → Registry → StreamRun
  unfolding predict
  stream_predict [] r = record { sent = []; ended = waiting; registry = r }
  stream_predict (eof ∷ events) r = record { sent = []; ended = closed; registry = r }
  stream_predict (broken e ∷ events) r = record { sent = []; ended = recv_error e; registry = r }
  stream_predict (message t host req sending ∷ events) r =
      let (reply, r') = predict round t host req r in
      stream_answer reply sending r' (stream_predict events)

unfoldable pub health : Time → String → Registry → HealthResponse
unfolding count int32_of
health now version r = record {
  status = "ok";
  active_workers = int32_of (count now r);
  queue_depth = pos 0;
  router_version = version;
}

-- The worker that `RegisterWorker` registers: no latency, no load.
unfoldable pub worker_of : Time → RegisterWorkerRequest → Worker
unfolding precision_to_domain
worker_of zero_time req = record {
  info = record {
    id = req.worker_id;
    supported_models = req.supported_models;
    gpu_available = req.gpu_available;
    max_precision = precision_to_domain req.max_precision;
    last_latency_ms = pos 0;
    in_flight = pos 0;
    last_heartbeat = zero_time;
  };
  endpoint = req.endpoint;
}

-- `zero_time` is the zero value of time.Time, which `Register` overwrites.
unfoldable pub register_worker :
    Time → Time → RegisterWorkerRequest → Registry → Rpc RegisterWorkerResponse × Registry
unfolding worker_of register
register_worker zero_time now req r =
    if req.worker_id == "" || req.endpoint == ""
    then (status invalid_argument "worker_id and endpoint are required", r)
    else (ok (record { accepted = true }), register now (worker_of zero_time req) r)
