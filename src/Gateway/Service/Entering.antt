-- ===== src/Gateway/Service/Entering.antt =====
-- Which requests of the gateway's server change its queue.
use distributed_ml_inference.Prelude.{
  String, Bool, true, false, Bool-cases, Option, none, some, Option-cases, List, [], ◌∷◌, ◌≡◌, ◌⊎◌,
  inl, inr, refl, ap, ◌∙◌, if◌then◌else◌,
}
use distributed_ml_inference.Metrics.{Set, middleware, status_recorder}
use distributed_ml_inference.Mux.{Values, Target, found, method_not_allowed, not_found, target}
use distributed_ml_inference.Gateway.Ratelimit.{Limiter}
use distributed_ml_inference.Gateway.Handler
use distributed_ml_inference.Gateway.Handler.{
  Host, InferRequest, Response, is_incomplete, submit_job,
}
use distributed_ml_inference.Gateway.Entry.{guarded, chain}
use distributed_ml_inference.Gateway.Entry.Admission.{admits, allowed, guarded-queue}
use distributed_ml_inference.Gateway.Service.{
  Endpoint, infer, jobs, healthz, metrics, mux, Request, Gateway, chained, answered, serve,
}
use distributed_ml_inference.Gateway.Service.Routes.{Reaches, submits, target-Reaches}

unmoved {ℓ} : {Q : Type ℓ} (b b' : Bool) (q : Q) → (if b then (if b' then q else q) else q) ≡ q
unmoved true true q = refl
unmoved true false q = refl
unmoved false b' q = refl

jobs_at :
    {method : String} {parts : List String} {values : Values}
    → Reaches jobs values method parts
    → (method ≡ "POST") × (parts ≡ "v1" ∷ "jobs" ∷ [])
jobs_at submits = (refl, refl)

module _ {C H G L P Q W : Type 0} (gateway : Gateway C H G L P Q W) where
  -- A request that may put a job on the queue: a POST to /v1/jobs with a key that the key set lets
  -- pass, a token of its client's bucket, and a body that the decoder reads as a complete request.
  pub record Enters (r : Request) (l : Limiter L) : Type 0 where
    pub post : r.method ≡ "POST"
    pub path : r.parts ≡ "v1" ∷ "jobs" ∷ []
    pub keyed : admits gateway.keys r.caller.api_key ≡ true
    pub token : (allowed gateway.rate r.caller l).0 ≡ true
    pub body : (req : InferRequest) × (r.decoded ≡ some req) × (is_incomplete req ≡ false)

  -- Metrics do not change what the handler left.
  chain-queue :
      (path method : String) (r : Request) (fn : Q → Option Response × Q) (w : W) (set : Set C H G)
      (l : Limiter L) (q : Q)
      → (chain gateway.rate gateway.prometheus gateway.writer gateway.keys path method r.elapsed
          r.caller fn w
          (set, (l, q))).1.1
        ≡ (guarded gateway.rate gateway.keys r.caller fn (l, q)).1
  unfolding chain middleware status_recorder
  chain-queue path method r fn w set l q =
      elim (Option-cases (guarded gateway.rate gateway.keys r.caller fn (l, q)).0) [
        | inl f ↦ rw (f, chain) refl
        | inr (response, t) ↦ rw (t, chain) refl
      ]

  chained-queue :
      (path : String) (r : Request) (fn : Q → Option Response × Q) (w : W) (set : Set C H G)
      (l : Limiter L) (q : Q)
      → (chained gateway path r fn w (set, (l, q))).1.1.1 ≡ (
          if admits gateway.keys r.caller.api_key
          then (if (allowed gateway.rate r.caller l).0 then (fn q).1 else q)
          else q)
  chained-queue path r fn w set l q =
      ap (λ x. x.1) (chain-queue path r.method r fn w set l q)
      ∙ guarded-queue gateway.rate gateway.keys r.caller fn l q

  -- A job that is not complete leaves the queue alone.
  submit_job_complete :
      (host : Host P) (decoded : Option InferRequest) (q : Q)
      → ((submit_job host gateway.ops gateway.jobs_topic decoded q).1 ≡ q)
        ⊎ ((req : InferRequest) × (decoded ≡ some req) × (is_incomplete req ≡ false))
  unfolding submit_job
  submit_job_complete host none q = inl refl
  submit_job_complete host (some req) q = elim (Bool-cases (is_incomplete req)) [
    | inl t ↦ inl (rw t refl)
    | inr f ↦ inr (req, refl, f)
  ]

  jobs-Enters :
      (host : Host P) (r : Request) (l : Limiter L) (q : Q)
      → (r.method ≡ "POST") × (r.parts ≡ "v1" ∷ "jobs" ∷ [])
      → ((if admits gateway.keys r.caller.api_key
            then (if (allowed gateway.rate r.caller l).0
                then (submit_job host gateway.ops gateway.jobs_topic r.decoded q).1
                else q)
            else q)
          ≡ q)
        ⊎ Enters r l
  jobs-Enters host r l q (post, path) = elim (Bool-cases (admits gateway.keys r.caller.api_key)) [
    | inr stopped ↦ inl (rw stopped refl)
    | inl keyed ↦ elim (Bool-cases (allowed gateway.rate r.caller l).0) [
      | inr empty ↦ inl (rw (keyed, empty) refl)
      | inl token ↦ elim (submit_job_complete host r.decoded q) [
        | inl kept ↦ inl (rw (keyed, token) kept)
        | inr body ↦
            inr (record { post = post; path = path; keyed = keyed; token = token; body = body })
      ]
    ]
  ]

  -- Of all requests to the gateway's server only those that enter can change the queue, whatever
  -- the queue's backend does.
  pub serve-Enters :
      (host : Host P) (r : Request) (w : W) (set : Set C H G) (l : Limiter L) (q : Q)
      → ((serve gateway host r w (set, (l, q))).1.1.1 ≡ q) ⊎ Enters r l
  unfolding serve
  serve-Enters host r w set l q = by_target (target mux r.method r.parts) refl
    where
      by_target :
          (t : Target Endpoint)
          → target mux r.method r.parts ≡ t
          → ((answered gateway host r t w (set, (l, q))).1.1.1 ≡ q) ⊎ Enters r l
      by_target (found infer values) is = inl (
          chained-queue "/v1/infer" r (λ q. (some (Handler.infer host r.decoded), q)) w set l q
          ∙ unmoved (admits gateway.keys r.caller.api_key) (allowed gateway.rate r.caller l).0 q)
      by_target (found jobs values) is =
          let reached = jobs_at ((target-Reaches jobs r.method r.parts values).0 is) in
          elim (jobs-Enters host r l q reached) [
            | inl kept ↦ inl (
                chained-queue "/v1/jobs" r
                  (submit_job host gateway.ops gateway.jobs_topic r.decoded) w set l q
                ∙ kept)
            | inr enters ↦ inr enters
          ]
      by_target (found healthz values) is = inl refl
      by_target (found metrics values) is = inl refl
      by_target method_not_allowed is = inl refl
      by_target not_found is = inl refl
