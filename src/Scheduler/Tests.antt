-- ===== src/Scheduler/Tests.antt =====
-- services/scheduler-go on a concrete job, with a router that is down.
use distributed_ml_inference.Prelude.{
  eqb, if◌then◌else◌, ◌==◌, ◌+◌, pos, String, true, false, Option, none, some, [], ◌∷◌, ◌≡◌, refl,
  ap, arith, wrap64, ◌+ℤ◌, ◌-ℤ◌, lookup,
}
use distributed_ml_inference.Models.{F32, InferenceJob, InferenceResult}
use distributed_ml_inference.Proto.{InferenceResponse, ok, status, unavailable, fp16}
use distributed_ml_inference.Queue.{done}
use distributed_ml_inference.Queue.Itoa.{itoa, put_sign, itoa_loop}
use distributed_ml_inference.Queue.Memory.{
  Memory, ack, channel, memory_ops, turns, enqueue, dead_letter,
}
use distributed_ml_inference.Queue.Memory.Channels.{memory-Laws, enqueue_done}
use distributed_ml_inference.Scheduler.{
  Dispatcher, Host, Effects, counted, handle, on_message, result,
}
use distributed_ml_inference.Scheduler.Fate.{Fate, Queued, handle-Fate, handle-unwritten}
use distributed_ml_inference.Scheduler.Budget.{IsReady}
use distributed_ml_inference.Scheduler.Progress.{turns-empties, turns-settle}
use distributed_ml_inference.Scheduler.Balance.{result_weight, outcomes, jobs_in}

-- Payloads that stand for their own JSON.
data Payload : Type 0 where
  no_bytes : Payload
  job_json : InferenceJob → Payload
  result_json : InferenceResult → Payload

same_payload : {p p' : Payload} → ◌≡◌ {A = Option Payload} (some p) (some p') → p' ≡ p
same_payload h = cc

abbrev read_job : Payload → Option InferenceJob
read_job (job_json job) = some job
read_job _ = none

abbrev down : Host Payload
down = record {
  empty = no_bytes;
  encode_job = λ job. some (job_json job);
  decode_job = read_job;
  encode_result = λ r. some (result_json r);
  narrow = λ x. x;
  widen = λ x. x;
  error_text = λ _ text. text;
  router = λ _ _. status unavailable "no workers";
}

abbrev dispatcher : Dispatcher
dispatcher = record {
  jobs_topic = "jobs";
  results_topic = "results";
  retry_backoff = pos 500000000;
  has_metrics = true;
}

abbrev a_job : InferenceJob
a_job = record {
  id = "j1";
  vehicle_id = "v1";
  model_name = "detector";
  model_version = "";
  prefer_precision = "fp16";
  features = 7 ∷ [];
  priority = pos 2;
  submitted_at = pos 0;
  attempt = pos 0;
  max_attempts = pos 3;
}

abbrev nothing_done : Effects
nothing_done = record {
  processed = 0;
  failed = 0;
  retried = 0;
  dead_letter = 0;
  sleeps = [];
  calls = [];
}

abbrev waiting : Memory Payload
waiting = record {
  topics = ("jobs", record { id = "1"; payload = job_json a_job; attempt = pos 1 } ∷ []) ∷ [];
  dlq = [];
  seq = pos 1;
  closed = false;
}

waiting-IsReady : IsReady dispatcher down 3 1 waiting
unfolding channel lookup ◌-ℤ◌
waiting-IsReady = record {
  waits = omega arith;
  fits = (((omega arith, omega arith), (omega arith, omega arith), omega arith), tt);
  numbered = refl;
  numbers_left = omega arith;
  jobs_room = omega arith;
  results_room = omega arith;
}

reads_job :
    (job : InferenceJob) (p : Payload) → down.encode_job job ≡ some p → read_job p ≡ some job
reads_job job p h = ap read_job (same_payload h)

writes_job :
    (job : InferenceJob) (p : Payload)
    → read_job p ≡ some job
    → (p' : Payload) × (down.encode_job (counted job) ≡ some p')
writes_job job p h = (job_json (counted job), refl)

turns-empties_example :
    (s : Memory Payload × Effects) × (turns
        (on_message dispatcher down memory_ops)
        3
        "jobs"
        (waiting, nothing_done)
      ≡ some s)
    × (channel "jobs" s.0 ≡ [])
    × (outcomes dispatcher down (λ _. true) (λ _. 1) s.0
        ≡ outcomes dispatcher down (λ _. true) (λ _. 1) waiting
          + jobs_in dispatcher down (λ _. true) (λ _. 1) (channel "jobs" waiting))
turns-empties_example =
    turns-empties dispatcher down refl refl reads_job writes_job 3 1 waiting nothing_done
      waiting-IsReady

abbrev read_result : Payload → Option InferenceResult
read_result (result_json r) = some r
read_result _ = none

turns-settle_example :
    (s : Memory Payload × Effects) × (turns
        (on_message dispatcher down memory_ops)
        3
        "jobs"
        (waiting, nothing_done)
      ≡ some s)
    × (channel "jobs" s.0 ≡ [])
    × (outcomes dispatcher down (λ i. i == "j1") (λ p. result_weight "j1" (read_result p)) s.0
        ≡ outcomes dispatcher down
            (λ i. i == "j1")
            (λ p. result_weight "j1" (read_result p))
            waiting
          + jobs_in dispatcher down
              (λ i. i == "j1")
              (λ p. result_weight "j1" (read_result p))
              (channel "jobs" waiting))
turns-settle_example =
    turns-settle dispatcher down refl refl reads_job writes_job read_result
      (λ r p h. ap read_result (same_payload h)) (λ i job resp h. (result_json _, refl)) "j1" 3 1
      waiting nothing_done waiting-IsReady

abbrev idle : Memory Payload
idle = record { topics = []; dlq = []; seq = pos 0; closed = false }

enqueue_works : (t : String) (p : Payload) → (enqueue none false t p idle).0 ≡ done
unfolding channel lookup itoa wrap64 ◌+ℤ◌ put_sign itoa_loop
enqueue_works t p = enqueue_done false t p idle "1" refl (omega arith)

burials_work : (p : Payload) (reason : String) → (dead_letter "jobs" p reason idle).0 ≡ done
unfolding dead_letter
burials_work p reason = refl

handle-Fate_example :
    ((handle dispatcher down memory_ops a_job (job_json a_job) (idle, nothing_done)).0 ≡ ack)
    × Fate dispatcher down memory_ops memory-Laws a_job
        (job_json a_job)
        idle
        nothing_done
        (handle dispatcher down memory_ops a_job (job_json a_job) (idle, nothing_done)).1.0
        (handle dispatcher down memory_ops a_job (job_json a_job) (idle, nothing_done)).1.1
handle-Fate_example =
    handle-Fate dispatcher down memory_ops memory-Laws a_job (job_json a_job) idle nothing_done tt
      tt (enqueue_works "jobs") (enqueue_works "results") burials_work

-- The bits of a NaN, which json.Marshal refuses, in the answer of a router.
abbrev nan : F32
nan = 0x7fc00000

abbrev nan_answer : InferenceResponse
nan_answer = record {
  request_id = "j1";
  worker_id = "w1";
  model_name = "detector";
  model_version = "v1";
  precision_used = fp16;
  output = [];
  predicted_label = "brake";
  confidence = nan;
  latency_ms = pos 3;
  queue_time_ms = pos 0;
}

abbrev uncertain : Host Payload
uncertain = record down {
  encode_result = λ r. if eqb r.confidence nan then none else some (result_json r);
  router = λ _ _. ok nan_answer;
}

handle-unwritten_example :
    ((handle dispatcher uncertain memory_ops a_job (job_json a_job) (idle, nothing_done)).0 ≡ ack)
    × Queued dispatcher uncertain memory_ops memory-Laws "results" no_bytes idle
        (handle dispatcher uncertain memory_ops a_job (job_json a_job) (idle, nothing_done)).1.0
    × ((handle dispatcher uncertain memory_ops a_job
          (job_json a_job)
          (idle, nothing_done)).1.1.processed
        ≡ 1)
unfolding result
handle-unwritten_example =
    handle-unwritten dispatcher uncertain memory_ops memory-Laws a_job (job_json a_job) idle
      nothing_done tt tt (enqueue_works "jobs") (enqueue_works "results") burials_work nan_answer
      refl refl
