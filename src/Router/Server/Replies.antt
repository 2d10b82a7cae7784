-- ===== src/Router/Server/Replies.antt =====
-- What `Predict` and `RegisterWorker` of grpc.go answer, and what they leave of the registry.
use distributed_ml_inference.Prelude.{
  ℕ, ℤ, String, text_append, ◌≡◌, ◌≢◌, ◌≤◌, refl, sym, ◌∙◌, Elem-cons_of_eq, ◌⊎◌, inl, inr, some,
  Option-cases, Bool-cases, Bool, true, List, [], ◌∷◌, eq_iff, eqb, Elem, there, find_first, ltb_ℤ,
  ◌-ℤ◌, arith,
}
use distributed_ml_inference.Models.{Time}
use distributed_ml_inference.Proto
use distributed_ml_inference.Proto.{
  InferenceRequest, InferenceResponse, RegisterWorkerRequest, Rpc, ok, status, unavailable,
  internal,
}
use distributed_ml_inference.Router.Registry.{
  Worker, Registry, heartbeat, snapshot, stamp, register,
}
use distributed_ml_inference.Router.Registry.Snapshot.{has_id, registered_until_stale}
use distributed_ml_inference.Router.Selector.{Selection, selected, no_eligible, precision_rank}
use distributed_ml_inference.Router.Selector.Eligible.{Serves}
use distributed_ml_inference.Router.Selector.Best.{Chosen, best, nobody}
use distributed_ml_inference.Router.Selector.Rounding.{IsRounding}
use distributed_ml_inference.Router.Server.{
  Instants, Host, Reply, failed, replied, WorkerPredictResponse, latency, response, finish, receive,
  body_for_worker, forward, after_select, routed_to, predict, precision_to_domain, worker_of,
  register_worker,
}
use distributed_ml_inference.Router.Server.Pool.{IsPool, register_worker-IsPool, routed_to-Chosen}

-- One worker answered with status 200 and a body that decodes.
pub record Answered (round : ℤ → ℤ) (t : Instants) (host : Host) (req : InferenceRequest)
    (r : Registry) (resp : InferenceResponse) (r' : Registry) : Type 0 where
  pub worker : Worker
  pub decoded : WorkerPredictResponse
  pub body : String
  pub routed : routed_to round t req r ≡ selected worker
  pub sent :
      host.send (text_append worker.endpoint "/predict") (body_for_worker t host req)
      ≡ replied 200 body
  pub decodes : host.decode body ≡ inr decoded
  pub reply : resp ≡ response t host req worker decoded
  pub recorded : r' ≡ heartbeat t.recorded worker.id (latency t host req) worker.in_flight r

pub request_id-response :
    (t : Instants) (host : Host) (req : InferenceRequest) (w : Worker) (d : WorkerPredictResponse)
    → (response t host req w d).request_id ≡ req.request_id
unfolding response
request_id-response t host req w d = refl

pub worker_id-response :
    (t : Instants) (host : Host) (req : InferenceRequest) (w : Worker) (d : WorkerPredictResponse)
    → (response t host req w d).worker_id ≡ w.id
unfolding response
worker_id-response t host req w d = refl

ok_same : {a b : InferenceResponse} → Rpc.ok a ≡ Rpc.ok b → a ≡ b
ok_same h = cc

some_same : {a b : Worker} → some a ≡ some b → a ≡ b
some_same h = cc

status-ne-ok : {c : Proto.Code} {m : String} {a : InferenceResponse} → ¬ (status c m ≡ ok a)
status-ne-ok h = cc

eqb-eq : (a b : ℕ) → eqb a b ≡ true → a ≡ b
eqb-eq a b h = ground arith

module _ (t : Instants) (host : Host) (req : InferenceRequest) where
  abbrev sent_to : Worker → Reply
  sent_to w = host.send (text_append w.endpoint "/predict") (body_for_worker t host req)

  finish_error :
      (w : Worker) (d : String ⊎ WorkerPredictResponse) (r : Registry) (c : Proto.Code) (m : String)
      → (finish t host req w d r).0 ≡ status c m
      → (finish t host req w d r).1 ≡ r
  unfolding finish
  finish_error w (inl e) r c m h = refl
  finish_error w (inr wr) r c m h = cc

  receive_error :
      (w : Worker) (reply : Reply) (r : Registry) (c : Proto.Code) (m : String)
      → (receive t host req w reply r).0 ≡ status c m
      → (receive t host req w reply r).1 ≡ r
  unfolding receive
  receive_error w (failed e) r c m h = refl
  receive_error w (replied code body) r c m h = elim (Bool-cases (eqb code 200)) [
    | inl good ↦ rw good (finish_error w (host.decode body) r c m (rw good at h))
    | inr bad ↦ rw bad
  ]

  forward_error :
      (w : Worker) (r : Registry) (c : Proto.Code) (m : String)
      → (forward t host req w r).0 ≡ status c m
      → (forward t host req w r).1 ≡ r
  unfolding forward
  forward_error w r c m h =
      elim (Option-cases (host.new_request (text_append w.endpoint "/predict"))) [
        | inl fine ↦
            rw (fine, forward) (receive_error w (sent_to w) r c m (rw (fine, forward) at h))
        | inr (e, bad) ↦ rw (bad, forward)
      ]

  after_select_error :
      (s : Selection) (r : Registry) (c : Proto.Code) (m : String)
      → (after_select t host req s r).0 ≡ status c m
      → (after_select t host req s r).1 ≡ r
  unfolding after_select
  after_select_error (selected w) r c m h = forward_error w r c m h
  after_select_error (no_eligible model preferred live) r c m h = refl

  module _ (w : Worker) (r : Registry) (resp : InferenceResponse) where
    -- What a successful end of the call says of the rest of it.
    record Finished (reply : Reply) (r' : Registry) : Type 0 where
      decoded : WorkerPredictResponse
      body : String
      good : reply ≡ replied 200 body
      decodes : host.decode body ≡ inr decoded
      made : resp ≡ response t host req w decoded
      recorded : r' ≡ heartbeat t.recorded w.id (latency t host req) w.in_flight r

    finish_ok :
        (body : String) (d : String ⊎ WorkerPredictResponse)
        → host.decode body ≡ d
        → (finish t host req w d r).0 ≡ ok resp
        → Finished (replied 200 body) (finish t host req w d r).1
    unfolding finish
    finish_ok body (inl e) same h = cc
    finish_ok body (inr wr) same h = record {
      decoded = wr;
      body = body;
      good = refl;
      decodes = same;
      made = ok_same (sym h);
      recorded = refl;
    }

    receive_ok :
        (reply : Reply)
        → (receive t host req w reply r).0 ≡ ok resp
        → Finished reply (receive t host req w reply r).1
    unfolding receive
    receive_ok (failed e) h = cc
    receive_ok (replied code body) h = elim (Bool-cases (eqb code 200)) [
      | inl good ↦
          rw (good, eqb-eq code 200 good) (finish_ok body (host.decode body) refl (rw good at h))
      | inr bad ↦ absurd (status-ne-ok (rw bad at h))
    ]

    forward_ok :
        (forward t host req w r).0 ≡ ok resp → Finished (sent_to w) (forward t host req w r).1
    unfolding forward
    forward_ok h = elim (Option-cases (host.new_request (text_append w.endpoint "/predict"))) [
      | inl fine ↦ rw (fine, forward) (receive_ok (sent_to w) (rw (fine, forward) at h))
      | inr (e, bad) ↦ absurd (status-ne-ok (rw (bad, forward) at h))
    ]

  after_select_ok :
      (s : Selection) (r : Registry) (resp : InferenceResponse)
      → (after_select t host req s r).0 ≡ ok resp
      → (w : Worker) × (s ≡ selected w)
        × Finished w r resp (sent_to w) (after_select t host req s r).1
  unfolding after_select
  after_select_ok (selected w) r resp h = (w, refl, forward_ok w r resp h)
  after_select_ok (no_eligible model preferred live) r resp h = absurd (status-ne-ok h)

module _ (round : ℤ → ℤ) (t : Instants) (host : Host) (req : InferenceRequest) (r : Registry) where
  -- A `Predict` that fails, for whatever reason, leaves the registry as it was.
  pub predict_error_unchanged :
      (c : Proto.Code) (m : String)
      → (predict round t host req r).0 ≡ status c m
      → (predict round t host req r).1 ≡ r
  unfolding predict
  predict_error_unchanged c m h = after_select_error t host req (routed_to round t req r) r c m h

  -- A `Predict` that succeeds was answered with status 200 by the worker that was selected, its
  -- response is made of that answer, and its only effect is that worker's heartbeat.
  pub predict-Answered :
      (resp : InferenceResponse)
      → (predict round t host req r).0 ≡ ok resp
      → Answered round t host req r resp (predict round t host req r).1
  unfolding predict
  predict-Answered resp h =
      let (w, routed, f) = after_select_ok t host req (routed_to round t req r) r resp h in
      record {
        worker = w;
        decoded = f.decoded;
        body = f.body;
        routed = routed;
        sent = f.good;
        decodes = f.decodes;
        reply = f.made;
        recorded = f.recorded;
      }

Elem-of_find_first :
    (p : Worker → Bool) (ws : List Worker) {w : Worker} → find_first p ws ≡ some w → Elem w ws
unfolding find_first
Elem-of_find_first p [] h = cc
Elem-of_find_first p (x ∷ ws) h = elim (Bool-cases (p x)) [
  | inl t ↦ Elem-cons_of_eq ws (some_same (sym (rw t at h)))
  | inr f ↦ there (Elem-of_find_first p ws (rw f at h))
]

Chosen-selected :
    {cost : Worker → ℤ} {model_name : String} {preferred : String} {ws : List Worker}
    {s : Selection} (w : Worker)
    → Chosen cost model_name preferred ws s
    → Elem w ws
    → Serves model_name preferred w
    → (v : Worker) × (s ≡ selected v)
Chosen-selected w (best v _ _ _ _) e serves = (v, refl)
Chosen-selected w (nobody none_serves) e serves = absurd (none_serves w e serves)

-- A worker that `RegisterWorker` accepts is in the pool until it is stale: a request for one of its
-- models, at a precision within its own, is routed to some worker.
pub register_worker-routes :
    (round : ℤ → ℤ) (zero_time now : Time) (reg : RegisterWorkerRequest) (t : Instants)
    (req : InferenceRequest) (r : Registry)
    → IsRounding round
    → IsPool r
    → reg.worker_id ≢ ""
    → reg.endpoint ≢ ""
    → Elem req.model_name reg.supported_models
    → precision_rank (precision_to_domain req.preferred_precision)
      ≤ precision_rank (precision_to_domain reg.max_precision)
    → ltb_ℤ (t.routed -ℤ r.stale_after) now ≡ true
    → (w : Worker) × (routed_to round t req (register_worker zero_time now reg r).1 ≡ selected w)
register_worker-routes round zero_time now reg t req r ro h id_given end_given has fits fresh =
    Chosen-selected (stamp now (worker_of zero_time reg))
      (routed_to-Chosen round ro t req r' (register_worker-IsPool zero_time now reg r h)) listed
      (unfold worker_of in record { has_model = has; precise = λ _. fits })
  where
    r' : Registry
    r' = (register_worker zero_time now reg r).1

    accepted : r' ≡ register now (worker_of zero_time reg) r
    accepted =
        unfold register_worker in ground (arith, eq_iff reg.worker_id "", eq_iff reg.endpoint "")

    listed : Elem (stamp now (worker_of zero_time reg)) (snapshot t.routed r')
    listed = rw accepted (
        Elem-of_find_first (has_id (worker_of zero_time reg).id) _
          (registered_until_stale now t.routed (worker_of zero_time reg) r h.keyed ∙ rw fresh))
