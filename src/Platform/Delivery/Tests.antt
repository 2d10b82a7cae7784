-- ===== src/Platform/Delivery/Tests.antt =====
-- A job from its submission to its delivery on the in-process queue, with a router that is down.
use distributed_ml_inference.Prelude.{
  ℕ, ◌-◌, eqb, pos, String, true, false, Option, none, some, [], ◌∷◌, ◌++◌, ◌≡◌, refl, ap, arith,
  wrap64, ◌+ℤ◌, lookup, insert, if◌then◌else◌,
}
use distributed_ml_inference.Models.{InferenceJob, InferenceResult}
use distributed_ml_inference.Proto.{status, unavailable}
use distributed_ml_inference.Queue.{Message, done}
use distributed_ml_inference.Queue.Itoa.{itoa, put_sign, itoa_loop}
use distributed_ml_inference.Queue.Memory.{
  Memory, memory_ops, channel, enqueue, enqueue_as, chan_for, send, set_channel, dead_letter,
}
use distributed_ml_inference.Queue.Memory.Channels.{memory-Laws, enqueue_done}
use distributed_ml_inference.Scheduler
use distributed_ml_inference.Scheduler.{Dispatcher, Effects}
use distributed_ml_inference.Gateway.Auth.{has}
use distributed_ml_inference.Gateway.Auth
use distributed_ml_inference.Gateway.Ratelimit.{
  Rate, Limiter, new_limiters, allow_for, limiter_for, limit, client_key,
}
use distributed_ml_inference.Gateway.Handler
use distributed_ml_inference.Gateway.Handler.{InferRequest, job, job_payload, submit_job, accepted}
use distributed_ml_inference.Gateway.Entry.{Caller, guarded}
use distributed_ml_inference.Platform.Delivery.{Delivered, accepted-Fate}

-- Payloads that stand for their own JSON.
data Payload : Type 0 where
  no_bytes : Payload
  job_json : InferenceJob → Payload
  result_json : InferenceResult → Payload

same_payload : {p p' : Payload} → ◌≡◌ {A = Option Payload} (some p) (some p') → p' ≡ p
same_payload h = cc

abbrev read_job : Payload → Option InferenceJob
read_job (job_json job) = some job
read_job _ = none

abbrev scheduler : Scheduler.Host Payload
scheduler = record {
  empty = no_bytes;
  encode_job = λ job. some (job_json job);
  decode_job = read_job;
  encode_result = λ r. some (result_json r);
  narrow = λ x. x;
  widen = λ x. x;
  error_text = λ _ text. text;
  router = λ _ _. status unavailable "no workers";
}

abbrev gateway : Handler.Host Payload
gateway = record {
  narrow = λ x. x;
  empty = no_bytes;
  encode_job = λ job. some (job_json job);
  router = λ _. status unavailable "no workers";
  error_text = λ _ text. text;
  new_id = "j1";
  now = pos 5000000;
}

abbrev dispatcher : Dispatcher
dispatcher = record {
  jobs_topic = "jobs";
  results_topic = "results";
  retry_backoff = pos 200000000;
  has_metrics = true;
}

-- A bucket of two tokens, which are never put back.
abbrev tokens : Rate ℕ
tokens = record { new_limiter = λ _ _. 2; allow = λ _ n. (if eqb n 0 then false else true, n - 1) }

abbrev limiter : Limiter ℕ
limiter = new_limiters tokens 0 (pos 2)

abbrev caller : Caller
caller = record {
  api_key = "k1";
  host = some "10.0.0.1";
  remote_addr = "10.0.0.1:5000";
  at = pos 1;
}

abbrev asked : InferRequest
asked = record {
  vehicle_id = "v1";
  model_name = "detector";
  model_version = "";
  precision = "int8";
  features = 7 ∷ [];
  priority = "high";
}

abbrev idle : Memory Payload
idle = record { topics = []; dlq = []; seq = pos 0; closed = false }

abbrev nothing_done : Effects
nothing_done = record {
  processed = 0;
  failed = 0;
  retried = 0;
  dead_letter = 0;
  sleeps = [];
  calls = [];
}

abbrev payload : Payload
payload = job_json (job gateway asked)

abbrev delivery : Message Payload
delivery = record { id = "1"; payload = payload; attempt = pos 1 }

accepted_202 :
    (guarded tokens
      ("k1" ∷ [])
      caller
      (submit_job gateway memory_ops "jobs" (some asked))
      (limiter, idle)).0
    ≡ some (record { status = 202; body = accepted "j1" })
unfolding guarded Auth.middleware has limit allow_for limiter_for client_key new_limiters submit_job
    enqueue enqueue_as chan_for send set_channel itoa put_sign itoa_loop wrap64 ◌+ℤ◌ lookup insert
accepted_202 = refl

enqueue_works : (t : String) (p : Payload) → (enqueue none false t p idle).0 ≡ done
unfolding channel lookup itoa wrap64 ◌+ℤ◌ put_sign itoa_loop
enqueue_works t p = enqueue_done false t p idle "1" refl (omega arith)

burials_work : (p : Payload) (reason : String) → (dead_letter "jobs" p reason idle).0 ≡ done
unfolding dead_letter
burials_work p reason = refl

accepted-Fate_example :
    (memory-Laws.pending
        (guarded tokens
          ("k1" ∷ [])
          caller
          (submit_job gateway memory_ops "jobs" (some asked))
          (limiter, idle)).1.1
        "jobs"
      ≡ memory-Laws.pending idle "jobs" ++ payload ∷ [])
    × Delivered tokens gateway scheduler dispatcher memory_ops memory-Laws delivery
        (job gateway asked)
        idle
        nothing_done
unfolding job_payload
accepted-Fate_example =
    accepted-Fate tokens gateway scheduler dispatcher memory_ops memory-Laws ("k1" ∷ []) caller
      asked limiter idle idle (accepted "j1") delivery nothing_done tt tt
      (λ p h. ap read_job (same_payload h)) payload refl accepted_202 refl
      (record {
        jobs = enqueue_works "jobs";
        results = enqueue_works "results";
        burials = burials_work;
      })
