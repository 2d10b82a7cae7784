-- ===== src/Gateway/Handler.antt =====
-- services/gateway-go/internal/handler/http.go, over any queue backend and any router.
use distributed_ml_inference.Prelude.{
  ℕ, ℤ, pos, floor_div, String, Bool, ◌||◌, Option, none, some, List, map, is_empty, ◌==◌,
  if◌then◌else◌, text_append,
}
use distributed_ml_inference.Models.{
  F32, F64, Time, precision_fp32, precision_fp16, precision_int8, precision_int4, Priority,
  priority_normal, priority_high, priority_critical, InferenceJob,
}
use distributed_ml_inference.Proto
use distributed_ml_inference.Proto.{InferenceRequest, InferenceResponse, Rpc, ok, status}
use distributed_ml_inference.Queue.{Outcome, done, failed, hangs, Ops, marshalled}

pub record InferRequest : Type 0 where
  pub vehicle_id : String
  pub model_name : String
  pub model_version : String
  pub precision : String
  pub features : List F64
  pub priority : String

pub record InferResponse : Type 0 where
  pub request_id : String
  pub worker_id : String
  pub model_version : String
  pub predicted_label : String
  pub confidence : F32
  pub latency_ms : ℤ

-- The bodies of the gateway's responses: the text of http.Error, or a value written as JSON.
pub data Body : Type 0 where
  message : String → Body
  inferred : InferResponse → Body
  accepted : String → Body
  healthy : Body

pub record Response : Type 0 where
  pub status : ℕ
  pub body : Body

abbrev pub write_json : ℕ → Body → Response
write_json code body = record { status = code; body = body }

abbrev pub handle_healthz : Response
handle_healthz = write_json 200 healthy

unfoldable pub precision_to_proto : String → Proto.Precision
precision_to_proto p =
    if p == precision_fp32
    then Proto.Precision.fp32
    else if p == precision_fp16
    then Proto.Precision.fp16
    else if p == precision_int8
    then Proto.Precision.int8
    else if p == precision_int4
    then Proto.Precision.int4
    else Proto.Precision.unspecified

unfoldable pub priority_to_proto : String → Proto.Priority
priority_to_proto p =
    if p == "high"
    then Proto.Priority.high
    else if p == "critical"
    then Proto.Priority.critical
    else Proto.Priority.normal

unfoldable pub priority_from_string : String → Priority
priority_from_string p =
    if p == "high"
    then priority_high
    else if p == "critical"
    then priority_critical
    else priority_normal

-- What stands outside of the gateway: float32(x), the empty payload, json.Marshal of a job,
-- which is none where it returns an error, a call of the router within CallTimeout, and
-- err.Error() of a status; then a fresh uuid and the time.
pub record Host (P : Type 0) : Type 0 where
  pub narrow : F64 → F32
  pub empty : P
  pub encode_job : InferenceJob → Option P
  pub router : InferenceRequest → Rpc InferenceResponse
  pub error_text : Proto.Code → String → String
  pub new_id : String
  pub now : Time

-- `req.ModelName == "" || len(req.Features) == 0`
abbrev pub is_incomplete : InferRequest → Bool
is_incomplete req = req.model_name == "" || is_empty req.features

module _ {P : Type 0} (host : Host P) where
  abbrev pub request : InferRequest → InferenceRequest
  request req = record {
    request_id = host.new_id;
    vehicle_id = req.vehicle_id;
    model_name = req.model_name;
    model_version = req.model_version;
    preferred_precision = precision_to_proto req.precision;
    features = map host.narrow req.features;
    priority = priority_to_proto req.priority;
    submitted_at_unix_ms = floor_div host.now 1000000;
  }

  abbrev pub job : InferRequest → InferenceJob
  job req = record {
    id = host.new_id;
    vehicle_id = req.vehicle_id;
    model_name = req.model_name;
    model_version = req.model_version;
    prefer_precision = req.precision;
    features = req.features;
    priority = priority_from_string req.priority;
    submitted_at = host.now;
    attempt = pos 0;
    max_attempts = pos 3;
  }

  -- `payload, _ := json.Marshal(job)`: the error is dropped.
  unfoldable pub job_payload : InferenceJob → P
  job_payload j = marshalled host.empty (host.encode_job j)

  abbrev pub infer_response : Rpc InferenceResponse → Response
  infer_response (ok resp) = record {
    status = 200;
    body = inferred (record {
      request_id = resp.request_id;
      worker_id = resp.worker_id;
      model_version = resp.model_version;
      predicted_label = resp.predicted_label;
      confidence = resp.confidence;
      latency_ms = resp.latency_ms;
    });
  }
  infer_response (status code text) = record {
    status = 502;
    body = message (
        text_append "{\"error\":\"inference failed: "
          (text_append (host.error_text code text) "\"}"));
  }

  -- `decoded` is the request's JSON as the decoder reads it, none where it is no such JSON.
  unfoldable pub infer : Option InferRequest → Response
  infer none = record { status = 400; body = message "{\"error\":\"invalid json body\"}" }
  infer (some req) =
      if is_incomplete req
      then record {
        status = 400;
        body = message "{\"error\":\"model_name and features are required\"}";
      }
      else infer_response (host.router (request req))

  -- A queue that does not return leaves the request without an answer.
  abbrev pub submitted : {Q : Type 0} → InferRequest → Outcome × Q → Option Response × Q
  submitted req (done, q) = (some (record { status = 202; body = accepted host.new_id }), q)
  submitted req (failed _, q) =
      (some (record { status = 503; body = message "{\"error\":\"failed to enqueue job\"}" }), q)
  submitted req (hangs, q) = (none, q)

  unfoldable pub submit_job :
      {Q : Type 0} → Ops Q P → String → Option InferRequest → Q → Option Response × Q
  submit_job ops jobs_topic none q =
      (some (record { status = 400; body = message "{\"error\":\"invalid json body\"}" }), q)
  submit_job ops jobs_topic (some req) q =
      if is_incomplete req
      then (
        some (record {
          status = 400;
          body = message "{\"error\":\"model_name and features are required\"}";
        }),
        q,
      )
      else submitted req (ops.enqueue jobs_topic (job_payload (job req)) q)
