-- ===== src/Scheduler/Fate.antt =====
-- What becomes of a job that the dispatcher handles, over any backend that keeps the promises of
-- the interface `Queue`.
use distributed_ml_inference.Prelude.{
  leb_ℤ, ◌≡◌, refl, String, none, Bool-cases, [], ◌∷◌, ◌++◌, length, ◌==◌, mul64, true, false, inl,
  inr, if◌then◌else◌,
}
use distributed_ml_inference.Models.{InferenceJob}
use distributed_ml_inference.Proto
use distributed_ml_inference.Proto.{InferenceResponse, Rpc, ok, status}
use distributed_ml_inference.Queue.{done, Ops, Laws}
use distributed_ml_inference.Queue.Memory.{Handled, ack}
use distributed_ml_inference.Scheduler.{
  Dispatcher, Host, Effects, request, result, give_up, retry, on_failure, on_success, after_call,
  counted, handle, job_payload, result_payload, bump,
}

module _ {Q P : Type 0} (d : Dispatcher) (host : Host P) (ops : Ops Q P) {IsTopic : String → Type 0}
    (laws : Laws IsTopic ops) where
  open laws use {
    pending, dead, pending-enqueue, dead-enqueue, pending-dead_letter, dead-dead_letter,
  }

  -- One payload more waits on a topic, and nothing else changed.
  pub record Queued (topic : String) (p : P) (q q' : Q) : Type 0 where
    pub waits :
        (j : String)
        → IsTopic j
        → pending q' j ≡ (if topic == j then pending q j ++ p ∷ [] else pending q j)
    pub none_dead : (j : String) → IsTopic j → dead q' j ≡ dead q j

  -- One payload more is dead-lettered, and nothing else changed.
  pub record Buried (topic : String) (p : P) (q q' : Q) : Type 0 where
    pub rests :
        (j : String) → IsTopic j → dead q' j ≡ (if topic == j then dead q j ++ p ∷ [] else dead q j)
    pub none_waits : (j : String) → IsTopic j → pending q' j ≡ pending q j

  -- The answer of the router to a job's next attempt.
  abbrev pub answer : InferenceJob → Effects → Rpc InferenceResponse
  answer job e = host.router (length e.calls) (request host (counted job))

  pub data Fate (job : InferenceJob) (raw : P) (q : Q) (e : Effects) (q' : Q) (e' : Effects)
      : Type 0 where
    published :
        (resp : InferenceResponse)
        → answer job e ≡ ok resp
        → Queued d.results_topic (result_payload host (result host (counted job) resp)) q q'
        → e'.sleeps ≡ e.sleeps
        → Fate job raw q e q' e'
    retried :
        (c : Proto.Code) (m : String)
        → answer job e ≡ status c m
        → leb_ℤ job.max_attempts (counted job).attempt ≡ false
        → Queued d.jobs_topic (job_payload host (counted job)) q q'
        → e'.sleeps ≡ e.sleeps ++ mul64 d.retry_backoff (counted job).attempt ∷ []
        → Fate job raw q e q' e'
    buried :
        (c : Proto.Code) (m : String)
        → answer job e ≡ status c m
        → leb_ℤ job.max_attempts (counted job).attempt ≡ true
        → Buried d.jobs_topic raw q q'
        → e'.sleeps ≡ e.sleeps
        → Fate job raw q e q' e'

  enqueued :
      (t : String) (p : P) (q : Q)
      → IsTopic t
      → (ops.enqueue t p q).0 ≡ done
      → Queued t p q (ops.enqueue t p q).1
  enqueued t p q is h = record {
    waits = λ j k. pending-enqueue t j p q is k h;
    none_dead = λ j k. dead-enqueue t j p q is k;
  }

  module _ (job : InferenceJob) (raw : P) (q : Q) (e : Effects) (jobs : IsTopic d.jobs_topic)
      (results : IsTopic d.results_topic)
      (jobs_work : (p : P) → (ops.enqueue d.jobs_topic p q).0 ≡ done)
      (results_work : (p : P) → (ops.enqueue d.results_topic p q).0 ≡ done)
      (burials_work : (p : P) (reason : String)
        → (ops.dead_letter d.jobs_topic p reason q).0 ≡ done) where
    abbrev called : Effects
    called = record e { calls = e.calls ++ request host (counted job) ∷ [] }

    abbrev Settled : Handled × (Q × Effects) → Type 0
    Settled out = (out.0 ≡ ack) × Fate job raw q e out.1.0 out.1.1

    on_failure-Fate :
        (c : Proto.Code) (m reason : String)
        → answer job e ≡ status c m
        → Settled (on_failure d host ops (counted job) raw reason (q, called))
    unfolding on_failure give_up retry
    on_failure-Fate c m reason h =
        elim (Bool-cases (leb_ℤ job.max_attempts (counted job).attempt)) [
          | inl spent ↦ rw spent (
            rw (burials_work raw reason),
            buried c m h spent
                (record {
                  rests = λ j k.
                      dead-dead_letter d.jobs_topic j raw reason q jobs k (burials_work raw reason);
                  none_waits = λ j k. pending-dead_letter d.jobs_topic j raw reason q jobs k;
                })
                refl,
          )
          | inr more ↦ rw more (
            rw (jobs_work (job_payload host (counted job))),
            retried c m h more
                (enqueued d.jobs_topic (job_payload host (counted job)) q jobs (jobs_work _)) refl,
          )
        ]

    after_call-Fate :
        (reply : Rpc InferenceResponse)
        → answer job e ≡ reply
        → Settled (after_call d host ops (counted job) raw reply (q, called))
    after_call-Fate (ok resp) h =
        unfold on_success in
        (
          rw (results_work (result_payload host (result host (counted job) resp))),
          published resp h (enqueued d.results_topic _ q results (results_work _)) refl,
        )
    after_call-Fate (status c m) h = on_failure-Fate c m (host.error_text c m) h

    -- On a backend that keeps the interface's promises and takes the two topics, where its calls
    -- succeed, `handle` acks the job, which is then in exactly one place: its result published, or
    -- itself queued again with its attempt counted, after a backoff in proportion to the attempt, or
    -- its payload dead-lettered once its attempts are used up.
    pub handle-Fate : Settled (handle d host ops job raw (q, e))
    unfolding handle
    handle-Fate = after_call-Fate (answer job e) refl

    pub handle-unwritten :
        (resp : InferenceResponse)
        → answer job e ≡ ok resp
        → host.encode_result (result host (counted job) resp) ≡ none
        → let out = handle d host ops job raw (q, e) in
          (out.0 ≡ ack)
          × Queued d.results_topic host.empty q out.1.0
          × (out.1.1.processed ≡ bump d.has_metrics e.processed)
    unfolding handle
    handle-unwritten resp answered unwritten = rw answered (unwritten_call unwritten)
      where
        unwritten_call :
            host.encode_result (result host (counted job) resp) ≡ none
            → let out = after_call d host ops (counted job) raw (ok resp) (q, called) in
              (out.0 ≡ ack)
              × Queued d.results_topic host.empty q out.1.0
              × (out.1.1.processed ≡ bump d.has_metrics e.processed)
        unwritten_call none_made =
            unfold on_success result_payload in
            rw none_made (
              rw (results_work host.empty),
              enqueued d.results_topic host.empty q results (results_work host.empty),
              refl,
            )
