-- ===== src/Scheduler/Balance.antt =====
-- The jobs of dispatcher.go counted by their ids: those that wait, those with a result, and those
-- that are dead-lettered.
use distributed_ml_inference.Prelude.{
  ℕ, ◌+◌, ◌≡◌, String, Bool, Option, none, some, List, [], ◌∷◌, ◌++◌, ◌==◌, if◌then◌else◌, arith,
}
use distributed_ml_inference.Models.{InferenceJob, InferenceResult}
use distributed_ml_inference.Proto.{InferenceResponse, ok}
use distributed_ml_inference.Queue.{Message}
use distributed_ml_inference.Queue.Memory.{Memory, channel, dead_lettered}
use distributed_ml_inference.Scheduler.{Dispatcher, Host, result, request, result_payload}

abbrev pub one_if : Bool → ℕ
one_if b = if b then 1 else 0

-- What a payload of the results topic counts among the results for an id.
abbrev pub result_weight : String → Option InferenceResult → ℕ
result_weight id none = 0
result_weight id (some r) = one_if (r.job_id == id)

-- `chosen` tells which ids are counted, and `weigh` is what a payload of the results topic counts.
module _ {P : Type 0} (d : Dispatcher) (host : Host P) (chosen : String → Bool)
    (weigh : P → ℕ) where
  -- The result of an answer of the router counts as its job does.
  abbrev pub Weighs : Type 0
  Weighs =
      (n : ℕ) (job : InferenceJob) (resp : InferenceResponse)
      → host.router n (request host job) ≡ ok resp
      → weigh (result_payload host (result host job resp)) ≡ one_if (chosen job.id)

  abbrev pub job_weight : Option InferenceJob → ℕ
  job_weight none = 0
  job_weight (some job) = one_if (chosen job.id)

  abbrev pub jobs_in : List (Message P) → ℕ
  jobs_in [] = 0
  jobs_in (msg ∷ msgs) = job_weight (host.decode_job msg.payload) + jobs_in msgs

  abbrev pub results_in : List (Message P) → ℕ
  results_in [] = 0
  results_in (msg ∷ msgs) = weigh msg.payload + results_in msgs

  abbrev pub dead_in : List P → ℕ
  dead_in [] = 0
  dead_in (p ∷ ps) = job_weight (host.decode_job p) + dead_in ps

  -- What has become of the jobs that are done.
  abbrev pub outcomes : Memory P → ℕ
  outcomes m = results_in (channel d.results_topic m) + dead_in (dead_lettered d.jobs_topic m)

  abbrev pub balance : Memory P → ℕ
  balance m = jobs_in (channel d.jobs_topic m) + outcomes m

  pub jobs_in-append : (xs ys : List (Message P)) → jobs_in (xs ++ ys) ≡ jobs_in xs + jobs_in ys
  jobs_in-append [] ys = omega arith
  jobs_in-append (x ∷ xs) ys = omega (arith, jobs_in-append xs ys)

  pub results_in-append :
      (xs ys : List (Message P)) → results_in (xs ++ ys) ≡ results_in xs + results_in ys
  results_in-append [] ys = omega arith
  results_in-append (x ∷ xs) ys = omega (arith, results_in-append xs ys)

  pub dead_in-append : (xs ys : List P) → dead_in (xs ++ ys) ≡ dead_in xs + dead_in ys
  dead_in-append [] ys = omega arith
  dead_in-append (x ∷ xs) ys = omega (arith, dead_in-append xs ys)
