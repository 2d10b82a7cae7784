-- ===== src/Platform.antt =====
-- The gateway (services/gateway-go) and the scheduler (services/scheduler-go) on one in-process queue
-- of shared/pkg/queue: a job from its submission to its outcome.
pub mod Inference
pub mod Lifecycle
pub mod Driving
pub mod Delivery
mod Tests
use distributed_ml_inference.Prelude.{
  ℕ, suc, ◌+◌, ◌<◌, ◌^◌, pos, String, Bool, true, false, Option, none, some, List, [], ◌∷◌, ◌++◌,
  ◌==◌, eq_refl, ◌≡◌, refl, sym, ap, ◌∙◌, if◌then◌else◌, arith,
}
use distributed_ml_inference.Models.{InferenceJob, InferenceResult}
use distributed_ml_inference.Queue.{Message, AnyTopic}
use distributed_ml_inference.Queue.Memory.{Memory, channel, dead_lettered, memory_ops, turns}
use distributed_ml_inference.Queue.Memory.Channels.{memory-Laws, payloads}
use distributed_ml_inference.Scheduler
use distributed_ml_inference.Scheduler.{Dispatcher, Effects, on_message, counted, result}
use distributed_ml_inference.Proto.{InferenceResponse, ok}
use distributed_ml_inference.Scheduler.Budget.{IsReady}
use distributed_ml_inference.Scheduler.Balance.{
  result_weight, job_weight, jobs_in, results_in, dead_in, outcomes,
}
use distributed_ml_inference.Scheduler.Progress.{turns-settle}
use distributed_ml_inference.Gateway.Handler
use distributed_ml_inference.Gateway.Handler.{InferRequest, Body, job, submit_job}
use distributed_ml_inference.Gateway.Submission.{submit_job-queues, submit_job-dead}

same_request : {a b : InferRequest} → ◌≡◌ {A = Option InferRequest} (some a) (some b) → b ≡ a
same_request h = cc

add_one : (n : ℕ) → n + (1 + 0) ≡ suc n
add_one n = omega arith

module _ {P : Type 0} (d : Dispatcher) (scheduler : Scheduler.Host P) (chosen : String → Bool)
    (weigh : P → ℕ) where
  -- The same sums over payloads alone.
  abbrev jobs_of : List P → ℕ
  jobs_of [] = 0
  jobs_of (p ∷ ps) = job_weight d scheduler chosen weigh (scheduler.decode_job p) + jobs_of ps

  abbrev results_of : List P → ℕ
  results_of [] = 0
  results_of (p ∷ ps) = weigh p + results_of ps

  jobs_in-payloads :
      (ms : List (Message P)) → jobs_in d scheduler chosen weigh ms ≡ jobs_of (payloads ms)
  jobs_in-payloads [] = refl
  jobs_in-payloads (msg ∷ ms) = rw (jobs_in-payloads ms) refl

  results_in-payloads :
      (ms : List (Message P)) → results_in d scheduler chosen weigh ms ≡ results_of (payloads ms)
  results_in-payloads [] = refl
  results_in-payloads (msg ∷ ms) = rw (results_in-payloads ms) refl

  jobs_of-append : (ps qs : List P) → jobs_of (ps ++ qs) ≡ jobs_of ps + jobs_of qs
  jobs_of-append [] qs = omega arith
  jobs_of-append (p ∷ ps) qs = omega (arith, jobs_of-append ps qs)

module _ {P : Type 0} (d : Dispatcher) (scheduler : Scheduler.Host P)
    (decode_result : P → Option InferenceResult) where
  -- The jobs with an id that have a result or are dead-lettered, and those that wait.
  abbrev pub settled : String → Memory P → ℕ
  settled id m = outcomes d scheduler (λ i. i == id) (λ p. result_weight id (decode_result p)) m

  abbrev pub unsettled : String → Memory P → ℕ
  unsettled id m =
      jobs_in d scheduler (λ i. i == id) (λ p. result_weight id (decode_result p))
        (channel d.jobs_topic m)

module _ {P : Type 0} (d : Dispatcher) (scheduler : Scheduler.Host P) (gateway : Handler.Host P)
    (apart : (d.jobs_topic == d.results_topic) ≡ false)
    (apart' : (d.results_topic == d.jobs_topic) ≡ false)
    (reads : (job : InferenceJob) (p : P)
      → scheduler.encode_job job ≡ some p
      → scheduler.decode_job p ≡ some job)
    (writes : (job : InferenceJob) (p : P)
      → scheduler.decode_job p ≡ some job
      → (p' : P) × (scheduler.encode_job (counted job) ≡ some p'))
    (same_json : (job : InferenceJob) → gateway.encode_job job ≡ scheduler.encode_job job)
    (decode_result : P → Option InferenceResult)
    (read_back : (r : InferenceResult) (p : P)
      → scheduler.encode_result r ≡ some p
      → decode_result p ≡ some r)
    (writable : (i : ℕ) (job : InferenceJob) (resp : InferenceResponse)
      → scheduler.router i (Scheduler.request scheduler job) ≡ ok resp
      → (p : P) × (scheduler.encode_result (result scheduler job resp) ≡ some p)) where
  read_job :
      (req : InferRequest) {json : P}
      → gateway.encode_job (job gateway req) ≡ some json
      → scheduler.decode_job (Handler.job_payload gateway (job gateway req))
        ≡ some (job gateway req)
  unfolding Handler.job_payload
  read_job req {json} made =
      rw made (reads (job gateway req) json (sym (same_json (job gateway req)) ∙ made))

  submitted_waits :
      (asked : InferRequest) (json : P) (m : Memory P) (b : Body)
      → gateway.encode_job (job gateway asked) ≡ some json
      → (submit_job gateway memory_ops d.jobs_topic (some asked) m).0
        ≡ some (record { status = 202; body = b })
      → let m' = (submit_job gateway memory_ops d.jobs_topic (some asked) m).1 in
        (unsettled d scheduler decode_result gateway.new_id m'
          ≡ suc (unsettled d scheduler decode_result gateway.new_id m))
        × (settled d scheduler decode_result gateway.new_id m'
            ≡ settled d scheduler decode_result gateway.new_id m)
  unfolding Handler.job_payload
  submitted_waits asked json m b made h =
      let id = gateway.new_id in
      let chosen = λ (i : String). i == id in
      let weigh = λ (p : P). result_weight id (decode_result p) in
      let m' = (submit_job gateway memory_ops d.jobs_topic (some asked) m).1 in
      let (req, same, _, waits) =
        submit_job-queues gateway memory_ops memory-Laws d.jobs_topic (some asked) m b tt h in
      let p = Handler.job_payload gateway (job gateway req) in
      let jobs : payloads (channel d.jobs_topic m') ≡ payloads (channel d.jobs_topic m) ++ p ∷ [] =
        waits d.jobs_topic tt ∙ rw (eq_refl d.jobs_topic) refl in
      let results : payloads (channel d.results_topic m') ≡ payloads (channel d.results_topic m) =
        waits d.results_topic tt ∙ rw apart refl in
      let dead : dead_lettered d.jobs_topic m' ≡ dead_lettered d.jobs_topic m =
        submit_job-dead gateway memory_ops memory-Laws d.jobs_topic (some asked) m d.jobs_topic tt
          tt in
      let read : scheduler.decode_job p ≡ some (job gateway req) =
        read_job req (ap (λ r. gateway.encode_job (job gateway r)) (same_request same) ∙ made) in
      let one : job_weight d scheduler chosen weigh (scheduler.decode_job p) ≡ 1 =
        rw read (rw (eq_refl id) refl) in
      let sum = jobs_of d scheduler chosen weigh in
      let results_sum = results_of d scheduler chosen weigh in
      let count = jobs_in-payloads d scheduler chosen weigh in
      let added : sum (payloads (channel d.jobs_topic m) ++ p ∷ [])
          ≡ sum (payloads (channel d.jobs_topic m)) + (1 + 0) =
        jobs_of-append d scheduler chosen weigh (payloads (channel d.jobs_topic m)) (p ∷ [])
        ∙ ap (λ n. sum (payloads (channel d.jobs_topic m)) + (n + 0)) one in
      (
        count (channel d.jobs_topic m')
            ∙ ap sum jobs
            ∙ added
            ∙ add_one (sum (payloads (channel d.jobs_topic m)))
            ∙ ap suc (sym (count (channel d.jobs_topic m))),
        ap (λ n. n + dead_in d scheduler chosen weigh (dead_lettered d.jobs_topic m'))
              (results_in-payloads d scheduler chosen weigh (channel d.results_topic m')
                ∙ ap results_sum results
                ∙ sym (results_in-payloads d scheduler chosen weigh (channel d.results_topic m)))
            ∙ ap
                (λ l.
                  results_in d scheduler chosen weigh (channel d.results_topic m)
                  + dead_in d scheduler chosen weigh l)
                dead,
      )

  pub submitted-settled :
      (asked : InferRequest) (json : P) (m : Memory P) (b : Body) (n k : ℕ) (e : Effects)
      → gateway.encode_job (job gateway asked) ≡ some json
      → (submit_job gateway memory_ops d.jobs_topic (some asked) m).0
        ≡ some (record { status = 202; body = b })
      → IsReady d scheduler n k (submit_job gateway memory_ops d.jobs_topic (some asked) m).1
      → let m' = (submit_job gateway memory_ops d.jobs_topic (some asked) m).1 in
        (s : Memory P × Effects) × (turns (on_message d scheduler memory_ops) n d.jobs_topic (m', e)
          ≡ some s)
        × (channel d.jobs_topic s.0 ≡ [])
        × (settled d scheduler decode_result gateway.new_id s.0
            ≡ settled d scheduler decode_result gateway.new_id m
              + suc (unsettled d scheduler decode_result gateway.new_id m))
  submitted-settled asked json m b n k e made accepted ready =
      let m' = (submit_job gateway memory_ops d.jobs_topic (some asked) m).1 in
      let (more, same) = submitted_waits asked json m b made accepted in
      let (s, returns, empty, counted) =
        turns-settle d scheduler apart apart' reads writes decode_result read_back writable
          gateway.new_id n k m' e ready in
      (s, returns, empty, omega (arith, more, same, counted))
