-- ===== src/Platform/Inference.antt =====
-- The gateway (services/gateway-go) calling the router (services/router-go): a synchronous inference
-- from the request to the worker that served it.
mod Tests
use distributed_ml_inference.Prelude.{
  ℕ, ℤ, String, Bool, true, false, Bool-cases, Option, none, some, List, Elem, ◌≤ℤ◌, ◌≡◌, ◌≢◌, refl,
  sym, ap, ◌∙◌, inl, inr, if◌then◌else◌, arith,
}
use mathlib.Core.Path.{subst}
use distributed_ml_inference.Models.{Precision}
use distributed_ml_inference.Proto.{InferenceRequest, InferenceResponse, Rpc, ok, status}
use distributed_ml_inference.Router.Registry.{Worker, Registry, snapshot}
use distributed_ml_inference.Router.Selector.{Selection, selected, score}
use distributed_ml_inference.Router.Selector.Best.{Chosen, best, nobody, same_selected}
use distributed_ml_inference.Router.Selector.Eligible.{Serves}
use distributed_ml_inference.Router.Selector.Rounding.{IsRounding}
use distributed_ml_inference.Router.Server
use distributed_ml_inference.Router.Server.{
  Instants, WorkerPredictResponse, predict, response, priority_to_domain, precision_to_domain,
}
use distributed_ml_inference.Router.Server.Pool.{IsPool, routed_to-Chosen}
use distributed_ml_inference.Router.Server.Replies.{
  request_id-response, worker_id-response, predict-Answered,
}
use distributed_ml_inference.Gateway.Handler
use distributed_ml_inference.Gateway.Handler.{
  InferRequest, InferResponse, Response, Body, message, inferred, accepted, healthy, is_incomplete,
  request, infer_response, infer, precision_to_proto, priority_to_proto,
}

abbrev request_id_of : Body → String
request_id_of (inferred b) = b.request_id
request_id_of (message _) = ""
request_id_of (accepted _) = ""
request_id_of healthy = ""

abbrev worker_id_of : Body → String
worker_id_of (inferred b) = b.worker_id
worker_id_of (message _) = ""
worker_id_of (accepted _) = ""
worker_id_of healthy = ""

-- A response with another status is not the one of 200.
not_200 :
    (code : ℕ) (b b' : Body)
    → code ≢ 200
    → ◌≡◌ {A = Response} (record { status = code; body = b' }) (record { status = 200; body = b })
    → ⊥
not_200 code b b' other h = other (ap (λ x. x.status) h)

-- The worker that a selection names stands in the list, serves the request, and costs no more than
-- any that does.
Chosen-least :
    {cost : Worker → ℤ} {model_name : String} {preferred : Precision} {ws : List Worker}
    {s : Selection} {w : Worker}
    → Chosen cost model_name preferred ws s
    → s ≡ selected w
    → Elem w ws
      × Serves model_name preferred w
      × ((v : Worker) → Elem v ws → Serves model_name preferred v → cost w ≤ℤ cost v)
Chosen-least {cost} {model_name} {preferred} {ws} (best v e serves least _) same =
    subst
      (λ (u : Worker).
        Elem u ws
        × Serves model_name preferred u
        × ((x : Worker) → Elem x ws → Serves model_name preferred x → cost u ≤ℤ cost x))
      (same_selected same) (e, serves, least)
Chosen-least (nobody none_serves) same = absurd (cc)

module _ {P : Type 0} (gateway : Handler.Host P) where
  answered_ok :
      (a : Rpc InferenceResponse) (b : InferResponse)
      → infer_response gateway a ≡ record { status = 200; body = inferred b }
      → (resp : InferenceResponse) × (a ≡ ok resp)
        × (b.request_id ≡ resp.request_id)
        × (b.worker_id ≡ resp.worker_id)
  answered_ok (ok resp) b h =
      (resp, refl, sym (ap (λ x. request_id_of x.body) h), sym (ap (λ x. worker_id_of x.body) h))
  answered_ok (status code text) b h = absurd (not_200 502 (inferred b) _ (λ e. omega arith) h)

  -- A 200 from the gateway on a call of a router with a pool of workers, whose scores have IEEE
  -- rounding: the request was complete, and the response carries the gateway's id and the id of
  -- a live worker that serves the model at the precision that was asked for, with no live worker
  -- that serves it cheaper.
  pub infer-Served :
      (round : ℤ → ℤ)
      → IsRounding round
      → (t : Instants) (router : Server.Host) (r : Registry)
      → ((q : InferenceRequest) → gateway.router q ≡ (predict round t router q r).0)
      → IsPool r
      → (decoded : Option InferRequest) (b : InferResponse)
      → infer gateway decoded ≡ record { status = 200; body = inferred b }
      → (req : InferRequest) × (decoded ≡ some req)
        × (is_incomplete req ≡ false)
        × (w : Worker) × (b.request_id ≡ gateway.new_id)
        × (b.worker_id ≡ w.id)
        × Elem w (snapshot t.routed r)
        × Serves req.model_name (precision_to_domain (precision_to_proto req.precision)) w
        × ((v : Worker)
            → Elem v (snapshot t.routed r)
            → Serves req.model_name (precision_to_domain (precision_to_proto req.precision)) v
            → score round (priority_to_domain (priority_to_proto req.priority)) w
              ≤ℤ score round (priority_to_domain (priority_to_proto req.priority)) v)
  unfolding infer
  infer-Served round rounding t router r calls pool none b h =
      absurd (not_200 400 (inferred b) _ (λ e. omega arith) h)
  infer-Served round rounding t router r calls pool (some req) b h =
      elim (Bool-cases (is_incomplete req)) [
        | inl bad ↦ absurd (
            not_200 400 (inferred b)
              (message "{\"error\":\"model_name and features are required\"}") (λ e. omega arith)
              (rw bad at h))
        | inr good ↦
            let q = request gateway req in
            let (resp, answer, same_id, same_worker) =
              answered_ok (gateway.router q) b (rw good at h) in
            let a = predict-Answered round t router q r resp (sym (calls q) ∙ answer) in
            let (e, serves, least) =
              Chosen-least (routed_to-Chosen round rounding t q r pool) a.routed in
            (
              req,
              refl,
              good,
              a.worker,
              same_id
                  ∙ ap (λ x. x.request_id) a.reply
                  ∙ request_id-response t router q a.worker a.decoded,
              same_worker
                  ∙ ap (λ x. x.worker_id) a.reply
                  ∙ worker_id-response t router q a.worker a.decoded,
              e,
              serves,
              least,
            )
      ]
