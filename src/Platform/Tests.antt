-- ===== src/Platform/Tests.antt =====
-- A job through the gateway and the scheduler, with a router that is down.
use distributed_ml_inference.Prelude.{
  ◌+◌, suc, pos, true, false, Option, none, some, [], ◌∷◌, ◌≡◌, refl, ap, inr, arith, wrap64, ◌+ℤ◌,
  ◌-ℤ◌, lookup, insert, ℕ, String,
}
use distributed_ml_inference.Models.{InferenceJob, InferenceResult}
use distributed_ml_inference.Proto.{status, unavailable}
use distributed_ml_inference.Queue.Itoa.{itoa, put_sign, itoa_loop}
use distributed_ml_inference.Queue.Memory.{
  Memory, channel, memory_ops, turns, enqueue, enqueue_as, chan_for, send, set_channel,
}
use distributed_ml_inference.Scheduler
use distributed_ml_inference.Scheduler.{Dispatcher, Effects, counted, on_message}
use distributed_ml_inference.Scheduler.Budget.{IsReady}
use distributed_ml_inference.Gateway.Handler
use distributed_ml_inference.Gateway.Handler.{InferRequest, job, job_payload, submit_job, accepted}
use distributed_ml_inference.Platform.{settled, unsettled, submitted-settled}
use distributed_ml_inference.Models.{Duration}
use distributed_ml_inference.Config.{Environment}
use distributed_ml_inference.Process.{signals, tracing, execute}
use distributed_ml_inference.Process.Tracing.{Exporters}
use distributed_ml_inference.Process.Orderly.{Life}
use distributed_ml_inference.Gateway.Entry.Process as GatewayProcess
use distributed_ml_inference.Router.Entry.Process as RouterProcess
use distributed_ml_inference.Scheduler.Entry.Process as SchedulerProcess
use distributed_ml_inference.Deployer.Entry.{Pgx, connect}
use distributed_ml_inference.Deployer.Entry as Deployer
use distributed_ml_inference.Deployer.Entry.Process.{error_of}
use distributed_ml_inference.Deployer.Entry.Process as DeployerProcess
use distributed_ml_inference.Platform.Lifecycle.{main-Life}

-- Payloads that stand for their own JSON.
data Payload : Type 0 where
  no_bytes : Payload
  job_json : InferenceJob → Payload
  result_json : InferenceResult → Payload

same_payload : {p p' : Payload} → ◌≡◌ {A = Option Payload} (some p) (some p') → p' ≡ p
same_payload h = cc

abbrev read_job : Payload → Option InferenceJob
read_job (job_json job) = some job
read_job _ = none

abbrev read_result : Payload → Option InferenceResult
read_result (result_json r) = some r
read_result _ = none

abbrev scheduler : Scheduler.Host Payload
scheduler = record {
  empty = no_bytes;
  encode_job = λ job. some (job_json job);
  decode_job = read_job;
  encode_result = λ r. some (result_json r);
  narrow = λ x. x;
  widen = λ x. x;
  error_text = λ _ text. text;
  router = λ _ _. status unavailable "no workers";
}

abbrev gateway : Handler.Host Payload
gateway = record {
  narrow = λ x. x;
  empty = no_bytes;
  encode_job = λ job. some (job_json job);
  router = λ _. status unavailable "no workers";
  error_text = λ _ text. text;
  new_id = "j1";
  now = pos 5000000;
}

abbrev dispatcher : Dispatcher
dispatcher = record {
  jobs_topic = "jobs";
  results_topic = "results";
  retry_backoff = pos 200000000;
  has_metrics = true;
}

abbrev nothing_done : Effects
nothing_done = record {
  processed = 0;
  failed = 0;
  retried = 0;
  dead_letter = 0;
  sleeps = [];
  calls = [];
}

abbrev asked : InferRequest
asked = record {
  vehicle_id = "v1";
  model_name = "detector";
  model_version = "";
  precision = "int8";
  features = 7 ∷ [];
  priority = "high";
}

abbrev idle : Memory Payload
idle = record { topics = []; dlq = []; seq = pos 0; closed = false }

abbrev submitted : Memory Payload
submitted = (submit_job gateway memory_ops "jobs" (some asked) idle).1

accepted_202 :
    (submit_job gateway memory_ops "jobs" (some asked) idle).0
    ≡ some (record { status = 202; body = accepted "j1" })
unfolding submit_job job_payload enqueue enqueue_as chan_for send set_channel itoa put_sign
    itoa_loop wrap64 ◌+ℤ◌ lookup
accepted_202 = refl

submitted-IsReady : IsReady dispatcher scheduler 3 1 submitted
unfolding submit_job job_payload enqueue enqueue_as chan_for send set_channel itoa put_sign
    itoa_loop wrap64 ◌+ℤ◌ ◌-ℤ◌ lookup insert channel
submitted-IsReady = record {
  waits = omega arith;
  fits = (((omega arith, omega arith), (omega arith, omega arith), omega arith), tt);
  numbered = refl;
  numbers_left = omega arith;
  jobs_room = omega arith;
  results_room = omega arith;
}

submitted-settled_example :
    (s : Memory Payload × Effects) × (turns
        (on_message dispatcher scheduler memory_ops)
        3
        "jobs"
        (submitted, nothing_done)
      ≡ some s)
    × (channel "jobs" s.0 ≡ [])
    × (settled dispatcher scheduler read_result "j1" s.0
        ≡ settled dispatcher scheduler read_result "j1" idle
          + suc (unsettled dispatcher scheduler read_result "j1" idle))
submitted-settled_example =
    submitted-settled dispatcher scheduler gateway refl refl
      (λ job p h. ap read_job (same_payload h)) (λ job p h. (job_json (counted job), refl))
      (λ job. refl) read_result (λ r p h. ap read_result (same_payload h))
      (λ i job resp h. (result_json _, refl)) asked (job_json (job gateway asked)) idle
      (accepted "j1") 3 1 nothing_done refl accepted_202 submitted-IsReady

-- Services whose calls succeed, with a database of unit state.
abbrev pgx : Pgx ℕ ℕ
pgx = record {
  new_pool = λ dsn s. (inr 0, suc s);
  ping = λ pool s. (none, suc s);
  exec = λ pool sql s. (none, suc s);
}

abbrev env : Environment
env _ = none

abbrev succeeds : String → Option String
succeeds _ = none

abbrev exports : Exporters
exports _ = none

abbrev parse_duration : String → Option Duration
parse_duration _ = none

main-Life_example :
    Life
      (tracing ∷ signals ∷ [])
      none
      true
      (execute (GatewayProcess.main exports succeeds true parse_duration env))
    × Life
        (tracing ∷ signals ∷ [])
        none
        true
        (execute (RouterProcess.main exports succeeds true true parse_duration env))
    × Life
        (tracing ∷ signals ∷ [])
        none
        true
        (execute (SchedulerProcess.main exports succeeds true parse_duration env))
    × Life
        (signals ∷ [])
        (error_of (connect pgx (inr "CREATE TABLE") (Deployer.settings_of env).dsn 0).0)
        true
        (execute (DeployerProcess.main pgx (inr "CREATE TABLE") true env 0))
main-Life_example =
    main-Life exports succeeds succeeds pgx (inr "CREATE TABLE") true true parse_duration env 0
