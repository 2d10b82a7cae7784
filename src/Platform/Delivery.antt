-- ===== src/Platform/Delivery.antt =====
-- The gateway and the scheduler on any backend of shared/pkg/queue/queue.go: a job from the request
-- that submits it to what becomes of its delivery.
mod Tests
use distributed_ml_inference.Prelude.{
  ℕ, length, String, Bool, true, false, Option, some, List, [], ◌∷◌, ◌++◌, ◌==◌, ◌≡◌, refl, sym, ap,
  ◌∙◌, eq_refl, if◌then◌else◌,
}
use distributed_ml_inference.Models.{InferenceJob}
use distributed_ml_inference.Queue.{done, Ops, Laws, Message}
use distributed_ml_inference.Queue.Memory.{ack, Handled}
use distributed_ml_inference.Scheduler.{Dispatcher, Effects, on_message, handle, decoded}
use distributed_ml_inference.Scheduler as Scheduler
use distributed_ml_inference.Scheduler.Fate.{Fate, handle-Fate}
use distributed_ml_inference.Gateway.Auth.{KeySet}
use distributed_ml_inference.Gateway.Ratelimit.{Rate, Limiter}
use distributed_ml_inference.Gateway.Handler.{
  Host, InferRequest, is_incomplete, job, job_payload, submit_job, Body,
}
use distributed_ml_inference.Gateway.Entry.{Caller, guarded}
use distributed_ml_inference.Gateway.Entry.Admission.{guarded-accepted}

-- The backend takes what a scheduler does with one delivery, in the state that it stands in.
pub record Works {P Q : Type 0} (ops : Ops Q P) (d : Dispatcher) (q : Q) : Type 0 where
  pub jobs : (p : P) → (ops.enqueue d.jobs_topic p q).0 ≡ done
  pub results : (p : P) → (ops.enqueue d.results_topic p q).0 ≡ done
  pub burials : (p : P) (reason : String) → (ops.dead_letter d.jobs_topic p reason q).0 ≡ done

same_request : {a b : InferRequest} → ◌≡◌ {A = Option InferRequest} (some a) (some b) → b ≡ a
same_request h = cc

module _ {L P Q : Type 0} (rate : Rate L) (gateway : Host P) (scheduler : Scheduler.Host P)
    (d : Dispatcher) (ops : Ops Q P) {IsTopic : String → Type 0} (laws : Laws IsTopic ops) where
  -- What the scheduler makes of a delivery of a job.
  abbrev pub Delivered : Message P → InferenceJob → Q → Effects → Type 0
  Delivered m j q e =
      let out = on_message d scheduler ops m (q, e) in
      (out.0 ≡ ack) × Fate d scheduler ops laws j m.payload q e out.1.0 out.1.1

  on_message-Fate :
      (m : Message P) (j : InferenceJob) (q : Q) (e : Effects)
      → IsTopic d.jobs_topic
      → IsTopic d.results_topic
      → Works ops d q
      → scheduler.decode_job m.payload ≡ some j
      → Delivered m j q e
  unfolding on_message
  on_message-Fate m j q e jobs results works reads = rw reads (
      handle-Fate d scheduler ops laws j m.payload q e jobs results works.jobs works.results
        works.burials)

  -- On any backend that keeps the interface's promises, for a job that the gateway can write as JSON
  -- and a scheduler that reads that JSON as the job: where the gateway answers a submission with 202, its payload waits behind the
  -- others of the jobs topic; and whenever the backend delivers that payload, in a state in which
  -- its calls succeed, the scheduler acks it, and the job that was asked for is then in exactly one
  -- place, as a result, as a retry or as a dead letter.
  pub accepted-Fate :
      (keys : KeySet) (caller : Caller) (req : InferRequest) (l : Limiter L) (q q' : Q) (b : Body)
      (m : Message P) (e : Effects)
      → IsTopic d.jobs_topic
      → IsTopic d.results_topic
      → ((p : P)
          → gateway.encode_job (job gateway req) ≡ some p
          → scheduler.decode_job p ≡ some (job gateway req))
      → (json : P) → gateway.encode_job (job gateway req) ≡ some json
      → (guarded rate keys caller (submit_job gateway ops d.jobs_topic (some req)) (l, q)).0
        ≡ some (record { status = 202; body = b })
      → m.payload ≡ job_payload gateway (job gateway req)
      → Works ops d q'
      → let after =
          (guarded rate keys caller (submit_job gateway ops d.jobs_topic (some req)) (l, q)).1.1 in
        (laws.pending after d.jobs_topic
          ≡ laws.pending q d.jobs_topic ++ job_payload gateway (job gateway req) ∷ [])
        × Delivered m (job gateway req) q' e
  accepted-Fate keys caller req l q q' b m e jobs results agree json made accepted payload works =
      let (_, _, _, req', same, _, waits) =
        guarded-accepted rate gateway ops laws keys caller d.jobs_topic (some req) l q b jobs
          accepted in
      (
        waits d.jobs_topic jobs
            ∙ rw (eq_refl d.jobs_topic) (
                ap (λ r. laws.pending q d.jobs_topic ++ job_payload gateway (job gateway r) ∷ [])
                  (same_request same)),
        on_message-Fate m (job gateway req) q' e jobs results works
            (ap scheduler.decode_job payload ∙ (unfold job_payload in rw made (agree json made))),
      )
