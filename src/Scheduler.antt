-- ===== src/Scheduler.antt =====
-- services/scheduler-go/internal/worker/dispatcher.go: the job dispatcher, over any queue backend.
-- The router's client, encoding/json and the float conversions stand outside of the program.
pub mod Fate
pub mod Budget
pub mod Balance
pub mod Turns
pub mod Progress
pub mod Entry
mod Tests
use distributed_ml_inference.Prelude.{
  ℕ, suc, ℤ, pos, add64, mul64, floor_div, leb_ℤ, eqb_ℤ, String, Bool, Option, none, some, List,
  ◌∷◌, [], ◌++◌, map, length, ◌==◌, if◌then◌else◌,
}
use distributed_ml_inference.Models.{
  F32, F64, Duration, Precision, precision_fp32, precision_fp16, precision_int8, precision_int4,
  Priority, priority_high, priority_critical, InferenceJob, InferenceResult,
}
use distributed_ml_inference.Proto
use distributed_ml_inference.Proto.{InferenceRequest, InferenceResponse, Rpc, ok, status}
use distributed_ml_inference.Queue.{Outcome, done, failed, hangs, Ops, Message, marshalled}
use distributed_ml_inference.Queue.Memory.{Handled, ack, nack, stuck}

unfoldable pub precision_to_proto : Precision → Proto.Precision
precision_to_proto p =
    if p == precision_fp32
    then Proto.Precision.fp32
    else if p == precision_fp16
    then Proto.Precision.fp16
    else if p == precision_int8
    then Proto.Precision.int8
    else if p == precision_int4
    then Proto.Precision.int4
    else Proto.Precision.unspecified

unfoldable pub priority_to_proto : Priority → Proto.Priority
priority_to_proto p =
    if eqb_ℤ p priority_high
    then Proto.Priority.high
    else if eqb_ℤ p priority_critical
    then Proto.Priority.critical
    else Proto.Priority.normal

pub record Dispatcher : Type 0 where
  pub jobs_topic : String
  pub results_topic : String
  pub retry_backoff : Duration
  pub has_metrics : Bool

-- What the dispatcher relies on: the empty payload, json.Marshal, which is none where it returns an
-- error (for a float that is not finite, or a year after 9999), json.Unmarshal, float32(x) and
-- float64(x), and the router, which may answer each call differently (the number counts the calls
-- before it).
pub record Host (P : Type 0) : Type 0 where
  pub empty : P
  pub encode_job : InferenceJob → Option P
  pub decode_job : P → Option InferenceJob
  pub encode_result : InferenceResult → Option P
  pub narrow : F64 → F32
  pub widen : F32 → F64
  pub error_text : Proto.Code → String → String
  pub router : ℕ → InferenceRequest → Rpc InferenceResponse

-- What the dispatcher has done besides its calls of the queue: the counters of `Metrics`, the
-- sleeps, and the calls of the router.
pub record Effects : Type 0 where
  pub processed : ℕ
  pub failed : ℕ
  pub retried : ℕ
  pub dead_letter : ℕ
  pub sleeps : List Duration
  pub calls : List InferenceRequest

-- `if d.Metrics != nil { … }`
abbrev pub bump : Bool → ℕ → ℕ
bump b n = if b then suc n else n

-- job.Attempt++
abbrev pub counted : InferenceJob → InferenceJob
counted job = record job { attempt = add64 job.attempt (pos 1) }

module _ {P : Type 0} (host : Host P) where
  -- `payload, _ := json.Marshal(…)`: the error is dropped.
  unfoldable pub job_payload : InferenceJob → P
  job_payload job = marshalled host.empty (host.encode_job job)

  unfoldable pub result_payload : InferenceResult → P
  result_payload r = marshalled host.empty (host.encode_result r)

  unfoldable pub request : InferenceJob → InferenceRequest
  unfolding precision_to_proto priority_to_proto
  request job = record {
    request_id = job.id;
    vehicle_id = job.vehicle_id;
    model_name = job.model_name;
    model_version = job.model_version;
    preferred_precision = precision_to_proto job.prefer_precision;
    features = map host.narrow job.features;
    priority = priority_to_proto job.priority;
    submitted_at_unix_ms = floor_div job.submitted_at 1000000;
  }

  unfoldable pub result : InferenceJob → InferenceResponse → InferenceResult
  result job resp = record {
    job_id = job.id;
    worker_id = resp.worker_id;
    model_name = resp.model_name;
    model_version = resp.model_version;
    precision_used = "";
    output = [];
    predicted_label = resp.predicted_label;
    confidence = host.widen resp.confidence;
    latency_ms = resp.latency_ms;
    queue_time_ms = resp.queue_time_ms;
    error = "";
  }

-- An error of `Enqueue` is logged and the delivery acked.
abbrev pub logged : Outcome → Handled
logged done = ack
logged (failed e) = ack
logged hangs = stuck

-- The error of `DeadLetter` is returned.
abbrev pub returned : Outcome → Handled
returned done = ack
returned (failed e) = nack e
returned hangs = stuck

module _ {Q P : Type 0} (d : Dispatcher) (host : Host P) (ops : Ops Q P) where
  unfoldable pub give_up : P → String → Q × Effects → Handled × (Q × Effects)
  give_up raw reason (q, e) =
      let (o, q') = ops.dead_letter d.jobs_topic raw reason q in
      (returned o, (q', record e { dead_letter = bump d.has_metrics e.dead_letter }))

  -- The retry is a new message, after a linear backoff.
  unfoldable pub retry : InferenceJob → Q × Effects → Handled × (Q × Effects)
  retry job (q, e) =
      let (o, q') = ops.enqueue d.jobs_topic (job_payload host job) q in
      (
        logged o,
        (
          q',
          record e {
            retried = bump d.has_metrics e.retried;
            sleeps = e.sleeps ++ mul64 d.retry_backoff job.attempt ∷ [];
          },
        ),
      )

  -- The branch `if err != nil`, for a job whose attempt is counted already.
  unfoldable pub on_failure : InferenceJob → P → String → Q × Effects → Handled × (Q × Effects)
  unfolding give_up retry
  on_failure job raw reason (q, e) =
      let s : Q × Effects = (q, record e { failed = bump d.has_metrics e.failed }) in
      if leb_ℤ job.max_attempts job.attempt then give_up raw reason s else retry job s

  unfoldable pub on_success :
      InferenceJob → InferenceResponse → Q × Effects → Handled × (Q × Effects)
  unfolding result
  on_success job resp (q, e) =
      let (o, q') = ops.enqueue d.results_topic (result_payload host (result host job resp)) q in
      (logged o, (q', record e { processed = bump d.has_metrics e.processed }))

  abbrev pub after_call :
      InferenceJob → P → Rpc InferenceResponse → Q × Effects → Handled × (Q × Effects)
  after_call job raw (ok resp) s = on_success job resp s
  after_call job raw (status c m) s = on_failure job raw (host.error_text c m) s

  unfoldable pub handle : InferenceJob → P → Q × Effects → Handled × (Q × Effects)
  unfolding on_failure on_success request
  handle job raw (q, e) =
      let req = request host (counted job) in
      after_call (counted job) raw (host.router (length e.calls) req)
        (q, record e { calls = e.calls ++ req ∷ [] })

  abbrev pub decoded : Option InferenceJob → P → Q × Effects → Handled × (Q × Effects)
  decoded none raw s = (ack, s)
  decoded (some job) raw s = handle job raw s

  -- The handler that `Run` gives to `Consume`: a payload that is no job is dropped.
  unfoldable pub on_message : Message P → Q × Effects → Handled × (Q × Effects)
  unfolding handle
  on_message msg s = decoded (host.decode_job msg.payload) msg.payload s
