-- ===== src/Gateway/Submission.antt =====
-- SubmitJob of http.go: where a job waits.
use distributed_ml_inference.Prelude.{
  ℕ, String, false, Bool-cases, Option, none, some, [], ◌∷◌, ◌++◌, ◌==◌, ◌≡◌, ◌≢◌, refl, ap, arith,
  inl, inr, if◌then◌else◌,
}
use distributed_ml_inference.Queue.{Outcome, done, failed, hangs, Ops, Laws}
use distributed_ml_inference.Gateway.Handler.{
  Host, InferRequest, Response, Body, is_incomplete, job, submitted, submit_job, job_payload,
}

abbrev status_of : Option Response → ℕ
status_of none = 0
status_of (some response) = response.status

-- A response with another status is not the one of 202.
pub answered_otherwise :
    (code : ℕ) (b b' : Body)
    → code ≢ 202
    → ◌≡◌ {A = Option Response}
        (some (record { status = code; body = b' }))
        (some (record { status = 202; body = b }))
    → ⊥
answered_otherwise code b b' other h = other (ap status_of h)

module _ {P Q : Type 0} (host : Host P) (ops : Ops Q P) {IsTopic : String → Type 0}
    (laws : Laws IsTopic ops) where
  open laws use {pending, pending-enqueue}

  submitted_done :
      (req : InferRequest) (out : Outcome × Q) (b : Body)
      → (submitted host req out).0 ≡ some (record { status = 202; body = b })
      → out.0 ≡ done
  submitted_done req (done, q) b h = refl
  submitted_done req (failed e, q) b h = absurd (answered_otherwise 503 b _ (λ e. omega arith) h)
  submitted_done req (hangs, q) b h = absurd (cc)

  submitted_queue : (req : InferRequest) (out : Outcome × Q) → (submitted host req out).1 ≡ out.1
  submitted_queue req (done, q) = refl
  submitted_queue req (failed e, q) = refl
  submitted_queue req (hangs, q) = refl

  -- On a backend that keeps the interface's promises, for a jobs topic that it takes, a submission
  -- that is answered with 202 was a complete request, and its job now waits on the jobs topic,
  -- behind what waited there, while what waits on the backend's other topics is the same.
  pub submit_job-queues :
      (jobs_topic : String) (decoded : Option InferRequest) (q : Q) (b : Body)
      → IsTopic jobs_topic
      → (submit_job host ops jobs_topic decoded q).0 ≡ some (record { status = 202; body = b })
      → (req : InferRequest) × (decoded ≡ some req)
        × (is_incomplete req ≡ false)
        × ((j : String)
            → IsTopic j
            → pending (submit_job host ops jobs_topic decoded q).1 j ≡ (
                if jobs_topic == j
                then pending q j ++ job_payload host (job host req) ∷ []
                else pending q j))
  unfolding submit_job
  submit_job-queues jobs_topic none q b t h =
      absurd (answered_otherwise 400 b _ (λ e. omega arith) h)
  submit_job-queues jobs_topic (some req) q b topic h = elim (Bool-cases (is_incomplete req)) [
    | inl t ↦
        let refused = rw t at h in absurd (answered_otherwise 400 b _ (λ e. omega arith) refused)
    | inr f ↦
        let p = job_payload host (job host req) in
        let out = ops.enqueue jobs_topic p q in
        let accepted = submitted_done req out b (rw f at h) in
        (
          req,
          refl,
          f,
          λ j is.
              rw f
                (rw (submitted_queue req out) (pending-enqueue jobs_topic j p q topic is accepted)),
        )
  ]

  -- A submission buries nothing.
  pub submit_job-dead :
      (jobs_topic : String) (decoded : Option InferRequest) (q : Q) (j : String)
      → IsTopic jobs_topic
      → IsTopic j
      → laws.dead (submit_job host ops jobs_topic decoded q).1 j ≡ laws.dead q j
  unfolding submit_job
  submit_job-dead jobs_topic none q j topic is = refl
  submit_job-dead jobs_topic (some req) q j topic is = elim (Bool-cases (is_incomplete req)) [
    | inl t ↦ rw t refl
    | inr f ↦
        let p = job_payload host (job host req) in
        rw f (
          rw (submitted_queue req (ops.enqueue jobs_topic p q))
            (laws.dead-enqueue jobs_topic j p q topic is))
  ]
