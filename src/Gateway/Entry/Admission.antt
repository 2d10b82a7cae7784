-- ===== src/Gateway/Entry/Admission.antt =====
-- Which requests reach the handlers of the gateway, and what the metrics say of them.
use distributed_ml_inference.Prelude.{
  ℕ, String, Bool, true, false, not, ◌||◌, Bool-cases, Option, some, List, [], ◌∷◌, ◌++◌, is_empty,
  ◌==◌, ◌≡◌, refl, sym, ap, ◌∙◌, inl, inr, if◌then◌else◌, arith,
}
use distributed_ml_inference.Models.{Duration}
use distributed_ml_inference.Queue.{Ops, Laws}
use distributed_ml_inference.Metrics.{Prometheus, Set, ResponseWriter, status_recorder, middleware}
use distributed_ml_inference.Metrics.Counts.{Runs, ended, began, Served}
use distributed_ml_inference.Gateway.Auth.{KeySet}
use distributed_ml_inference.Gateway.Auth
use distributed_ml_inference.Gateway.Ratelimit.{Rate, Limiter, client_key, limit, allow_for}
use distributed_ml_inference.Gateway.Handler.{
  Host, InferRequest, Response, Body, is_incomplete, job, submit_job, job_payload,
}
use distributed_ml_inference.Gateway.Submission.{answered_otherwise, submit_job-queues}
use distributed_ml_inference.Gateway.Entry.{
  Caller, unauthorized, too_many, write_response, guarded, chain,
}

-- The key set lets a request with this key pass.
abbrev pub admits : KeySet → String → Bool
admits keys key = Auth.middleware keys key false true

middleware-if {ℓ} :
    {A : Type ℓ} (keys : KeySet) (key : String) (refused next : A)
    → Auth.middleware keys key refused next ≡ (if admits keys key then next else refused)
unfolding Auth.middleware
middleware-if keys key refused next = elim (Bool-cases (is_empty keys)) [
  | inl t ↦ rw t refl
  | inr f ↦ rw f (elim (Bool-cases (key == "" || not (Auth.has keys key))) [
    | inl u ↦ rw u refl
    | inr g ↦ rw g refl
  ])
]

module _ {L : Type 0} (rate : Rate L) where
  abbrev pub key_of : Caller → String
  key_of caller = client_key caller.api_key caller.host caller.remote_addr

  -- What the caller's bucket answers, and the buckets after it did.
  abbrev pub allowed : Caller → Limiter L → Bool × Limiter L
  allowed caller l = allow_for rate caller.at (key_of caller) l

  limit_if :
      {A : Type 0} (caller : Caller) (refused next : A) (l : Limiter L)
      → limit rate caller.at (key_of caller) refused next l
        ≡ (if (allowed caller l).0 then next else refused, (allowed caller l).1)
  unfolding limit
  limit_if caller refused next l = refl

  pub guarded_if :
      {Q : Type 0} (keys : KeySet) (caller : Caller) (fn : Q → Option Response × Q) (l : Limiter L)
      (q : Q)
      → guarded rate keys caller fn (l, q) ≡ (
          if admits keys caller.api_key
          then (if (allowed caller l).0
              then ((fn q).0, ((allowed caller l).1, (fn q).1))
              else (some too_many, ((allowed caller l).1, q)))
          else (some unauthorized, (l, q)))
  unfolding guarded
  guarded_if {Q = Q} keys caller fn l q =
      middleware-if keys caller.api_key (some unauthorized, (l, q))
        (pass (limit rate caller.at (key_of caller) (λ q. (some too_many, q)) fn l))
      ∙ ap (λ r. if admits keys caller.api_key then r else (some unauthorized, (l, q)))
          (ap pass (limit_if caller (λ q. (some too_many, q)) fn l) ∙ branches (allowed caller l).0)
    where
      pass : (Q → Option Response × Q) × Limiter L → Option Response × (Limiter L × Q)
      pass limited = ((limited.0 q).0, (limited.1, (limited.0 q).1))

      branches :
          (b : Bool)
          → pass ((if b then fn else (λ q. (some too_many, q))), (allowed caller l).1) ≡ (
              if b
              then ((fn q).0, ((allowed caller l).1, (fn q).1))
              else (some too_many, ((allowed caller l).1, q)))
      branches true = refl
      branches false = refl

  -- The queue after a request: the handler's, where a key and a token let it pass.
  pub guarded-queue :
      {Q : Type 0} (keys : KeySet) (caller : Caller) (fn : Q → Option Response × Q) (l : Limiter L)
      (q : Q)
      → (guarded rate keys caller fn (l, q)).1.1
        ≡ (if admits keys caller.api_key then (if (allowed caller l).0 then (fn q).1 else q) else q)
  guarded-queue keys caller fn l q =
      rw (guarded_if keys caller fn l q) (elim (Bool-cases (admits keys caller.api_key)) [
        | inl passes ↦ elim (Bool-cases (allowed caller l).0) [
          | inl token ↦ rw passes (rw token refl)
          | inr empty ↦ rw passes (rw empty refl)
        ]
        | inr stopped ↦ rw stopped refl
      ])

  -- A request that is stopped gets 401 or 429 and leaves the queue as it was; without a key that
  -- passes it takes no token.
  pub guarded-stopped :
      {Q : Type 0} (keys : KeySet) (caller : Caller) (fn : Q → Option Response × Q) (l : Limiter L)
      (q : Q)
      → (admits keys caller.api_key ≡ false
          → guarded rate keys caller fn (l, q) ≡ (some unauthorized, (l, q)))
        × (admits keys caller.api_key ≡ true
            → (allowed caller l).0 ≡ false
            → guarded rate keys caller fn (l, q) ≡ (some too_many, ((allowed caller l).1, q)))
  guarded-stopped keys caller fn l q = (
    λ stopped. rw (guarded_if keys caller fn l q) (rw stopped refl),
    λ passes empty. rw (guarded_if keys caller fn l q) (rw passes (rw empty refl)),
  )

  -- What a 202 tells of a request: it reached the handler.
  guarded-passes :
      {Q : Type 0} (keys : KeySet) (caller : Caller) (fn : Q → Option Response × Q) (l : Limiter L)
      (q : Q) (b : Body)
      → (guarded rate keys caller fn (l, q)).0 ≡ some (record { status = 202; body = b })
      → (admits keys caller.api_key ≡ true)
        × ((allowed caller l).0 ≡ true)
        × (guarded rate keys caller fn (l, q) ≡ ((fn q).0, ((allowed caller l).1, (fn q).1)))
  guarded-passes keys caller fn l q b h = elim (Bool-cases (admits keys caller.api_key)) [
    | inl passes ↦ elim (Bool-cases (allowed caller l).0) [
      | inl token ↦ (passes, token, rw (guarded_if keys caller fn l q) (rw passes (rw token refl)))
      | inr empty ↦ absurd (
          answered_otherwise 429 b _ (λ e. omega arith)
            (sym (ap (λ r. r.0) ((guarded-stopped keys caller fn l q).1 passes empty)) ∙ h))
    ]
    | inr stopped ↦ absurd (
        answered_otherwise 401 b _ (λ e. omega arith)
          (sym (ap (λ r. r.0) ((guarded-stopped keys caller fn l q).0 stopped)) ∙ h))
  ]

  -- On a backend that keeps the interface's promises, for a jobs topic that it takes, a request
  -- to /v1/jobs that the gateway answers with 202 has a key that the key set lets pass and a
  -- token of its client's bucket, which is taken; it is complete, and its job now waits on the
  -- jobs topic, behind what waited there.
  pub guarded-accepted :
      {P Q : Type 0} (host : Host P) (ops : Ops Q P) {IsTopic : String → Type 0}
      (laws : Laws IsTopic ops) (keys : KeySet) (caller : Caller) (jobs_topic : String)
      (decoded : Option InferRequest) (l : Limiter L) (q : Q) (b : Body)
      → IsTopic jobs_topic
      → (guarded rate keys caller (submit_job host ops jobs_topic decoded) (l, q)).0
        ≡ some (record { status = 202; body = b })
      → let after = (guarded rate keys caller (submit_job host ops jobs_topic decoded) (l, q)).1 in
        (admits keys caller.api_key ≡ true)
        × ((allowed caller l).0 ≡ true)
        × (after.0 ≡ (allowed caller l).1)
        × (req : InferRequest) × (decoded ≡ some req)
        × (is_incomplete req ≡ false)
        × ((j : String)
            → IsTopic j
            → laws.pending after.1 j ≡ (
                if jobs_topic == j
                then laws.pending q j ++ job_payload host (job host req) ∷ []
                else laws.pending q j))
  guarded-accepted host ops laws keys caller jobs_topic decoded l q b topic h =
      let (passes, token, reached) =
        guarded-passes keys caller (submit_job host ops jobs_topic decoded) l q b h in
      let (req, is, complete, waits) =
        submit_job-queues host ops laws jobs_topic decoded q b topic
          (sym (ap (λ r. r.0) reached) ∙ h) in
      (
        passes,
        token,
        ap (λ r. r.1.0) reached,
        req,
        is,
        complete,
        λ j topic_j. ap (λ r. laws.pending r.1.1 j) reached ∙ waits j topic_j,
      )

  -- A request that is answered, by the handler or by a middleware before it, gets the status and
  -- the body of its response written once, and the metrics count it under that status; the requests
  -- that are open are as many as before it.
  pub chain-Runs :
      {C H G Q W : Type 0} (prometheus : Prometheus C H G) (writer : ResponseWriter Body W)
      (keys : KeySet) (route method : String) (elapsed : Duration) (caller : Caller)
      (fn : Q → Option Response × Q) (w : W) (s : Set C H G) (l : Limiter L) (q : Q)
      (response : Response) {service : String} {n : ℕ} {served : List Served}
      → (guarded rate keys caller fn (l, q)).0 ≡ some response
      → Runs prometheus service s n served
      → let r : Served = record {
        route = route;
        method = method;
        elapsed = elapsed;
        status = response.status;
      } in
        let after =
          chain rate prometheus writer keys route method elapsed caller fn w (s, (l, q)) in
        (after.0 ≡ some (write_response writer response w))
        × (after.1.1 ≡ (guarded rate keys caller fn (l, q)).1)
        × Runs prometheus service after.1.0 n (r ∷ served)
  unfolding chain middleware status_recorder
  chain-Runs prometheus writer keys route method elapsed caller fn w s l q response h runs =
      rw (h, chain) (refl, refl, ended _ (began runs))
