-- ===== src/Router/Server/Pool.antt =====
-- What holds of the router's worker pool between two calls, whatever the clients and workers do.
use distributed_ml_inference.Prelude.{
  ℤ, pos, ◌<ℤ◌, String, text_append, ◌≡◌, refl, ◌⊎◌, inl, inr, none, some, Option, Option-cases,
  Bool-cases, List, [], ◌∷◌, ◌==◌, ◌||◌, eqb, All, All-insert, Elem, here, there, values, lookup,
  IsInt64, clamp64, clamp64-IsInt64, trunc_div_million-IsInt64, ◌-ℤ◌, arith,
}
use distributed_ml_inference.Models.{Time, Duration, Priority}
use distributed_ml_inference.Proto.{
  InferenceRequest, InferenceResponse, RegisterWorkerRequest, Rpc, ok, status,
}
use distributed_ml_inference.Router.Registry.{
  Worker, Registry, new_registry, register, stamp, heartbeat, beat, snapshot,
}
use distributed_ml_inference.Router.Registry.Keyed.{
  IsKeyed, new_registry-IsKeyed, register-IsKeyed, heartbeat-IsKeyed,
}
use distributed_ml_inference.Router.Registry.Snapshot.{Elem-snapshot}
use distributed_ml_inference.Router.Selector.{Selection, selected, no_eligible, score, max_float64}
use distributed_ml_inference.Router.Selector.Best.{Chosen, Chosen-Elem, select-Chosen}
use distributed_ml_inference.Router.Selector.Rounding.{IsRounding, score-lt-max_float64}
use distributed_ml_inference.Router.Server.{
  Instants, Host, Reply, failed, replied, WorkerPredictResponse, latency, finish, receive, forward,
  after_select, body_for_worker, predict, priority_to_domain, precision_to_domain, routed_to,
  Received, eof, broken, message, StreamRun, stream_answer, stream_predict, worker_of,
  register_worker,
}

-- No worker carries a load, and its latency is an int64.
abbrev pub IsIdle : String × Worker → Type 0
IsIdle e = (e.1.in_flight ≡ pos 0) × IsInt64 e.1.last_latency_ms

pub record IsPool (r : Registry) : Type 0 where
  pub keyed : IsKeyed r
  pub idle : All IsIdle r.workers

pub new_registry-IsPool : (stale_after : Duration) → IsPool (new_registry stale_after)
unfolding new_registry
new_registry-IsPool stale_after = record { keyed = new_registry-IsKeyed stale_after; idle = tt }

pub register-IsPool :
    (now : Time) (w : Worker) (r : Registry)
    → w.in_flight ≡ pos 0
    → IsInt64 w.last_latency_ms
    → IsPool r
    → IsPool (register now w r)
unfolding register
register-IsPool now w r none_yet fits h = record {
  keyed = register-IsKeyed now w r h.keyed;
  idle = All-insert IsIdle w.id (stamp now w) r.workers (none_yet, fits) h.idle;
}

pub heartbeat-IsPool :
    (now : Time) (id : String) (latency_ms in_flight : ℤ) (r : Registry)
    → in_flight ≡ pos 0
    → IsInt64 latency_ms
    → IsPool r
    → IsPool (heartbeat now id latency_ms in_flight r)
unfolding heartbeat
heartbeat-IsPool now id l n r none_yet fits h = record {
  keyed = heartbeat-IsKeyed now id l n r h.keyed;
  idle = heartbeat_idle (lookup id r.workers) refl;
}
  where
    heartbeat_idle :
        (o : Option Worker) → lookup id r.workers ≡ o → All IsIdle (heartbeat now id l n r).workers
    heartbeat_idle none e = rw (e, heartbeat) h.idle
    heartbeat_idle (some w) e =
        rw (e, heartbeat) (All-insert IsIdle id (beat now l n w) r.workers (none_yet, fits) h.idle)

idle_of_elem :
    (m : List (String × Worker)) {w : Worker} → All IsIdle m → Elem w (values m) → IsIdle (w.id, w)
idle_of_elem [] h e = elim e [ ]
idle_of_elem ((k, v) ∷ m) h here = h.0
idle_of_elem ((k, v) ∷ m) h (there e) = idle_of_elem m h.1 e

-- The workers of a snapshot of a pool.
pub snapshot-idle :
    (now : Time) (r : Registry) (w : Worker) → IsPool r → Elem w (snapshot now r) → IsIdle (w.id, w)
snapshot-idle now r w h e = idle_of_elem r.workers h.idle (Elem-snapshot now r e).0

module _ (t : Instants) (host : Host) (req : InferenceRequest) where
  latency-IsInt64 : IsInt64 (latency t host req)
  unfolding latency
  latency-IsInt64 =
      trunc_div_million-IsInt64 (clamp64 (t.replied -ℤ t.start))
        (clamp64-IsInt64 (t.replied -ℤ t.start))

  module _ (w : Worker) (r : Registry) (idle : w.in_flight ≡ pos 0) (h : IsPool r) where
    finish-IsPool : (d : String ⊎ WorkerPredictResponse) → IsPool (finish t host req w d r).1
    unfolding finish
    finish-IsPool (inl e) = h
    finish-IsPool (inr wr) =
        heartbeat-IsPool t.recorded w.id (latency t host req) w.in_flight r idle latency-IsInt64 h

    receive-IsPool : (reply : Reply) → IsPool (receive t host req w reply r).1
    unfolding receive
    receive-IsPool (failed e) = h
    receive-IsPool (replied code body) = elim (Bool-cases (eqb code 200)) [
      | inl good ↦ rw good (finish-IsPool (host.decode body))
      | inr bad ↦ rw bad h
    ]

    forward-IsPool : IsPool (forward t host req w r).1
    unfolding forward
    forward-IsPool = elim (Option-cases (host.new_request (text_append w.endpoint "/predict"))) [
      | inl fine ↦
          rw (fine, forward)
            (receive-IsPool
              (host.send (text_append w.endpoint "/predict") (body_for_worker t host req)))
      | inr (e, bad) ↦ rw (bad, forward) h
    ]

  after_select-IsPool :
      (s : Selection) (r : Registry)
      → ((w : Worker) → s ≡ selected w → w.in_flight ≡ pos 0)
      → IsPool r
      → IsPool (after_select t host req s r).1
  unfolding after_select
  after_select-IsPool (selected w) r idle h = forward-IsPool w r (idle w refl) h
  after_select-IsPool (no_eligible model preferred live) r idle h = h

module _ (round : ℤ → ℤ) (rounding : IsRounding round) where
  scores_small :
      (now : Time) (priority : Priority) (r : Registry)
      → IsPool r
      → (w : Worker) → Elem w (snapshot now r)
      → score round priority w <ℤ max_float64
  scores_small now priority r h w e =
      let (idle, fits) = snapshot-idle now r w h e in
      score-lt-max_float64 round rounding priority w fits (rw idle (omega arith))

  -- In a pool `Predict` routes to the best worker of the snapshot that it takes, and it answers
  -- that no worker is eligible only if none of that snapshot serves the request.
  pub routed_to-Chosen :
      (t : Instants) (req : InferenceRequest) (r : Registry)
      → IsPool r
      → Chosen
          (score round (priority_to_domain req.priority))
          req.model_name
          (precision_to_domain req.preferred_precision)
          (snapshot t.routed r)
          (routed_to round t req r)
  unfolding routed_to
  routed_to-Chosen t req r h =
      select-Chosen round (priority_to_domain req.priority) req.model_name
        (precision_to_domain req.preferred_precision) (snapshot t.routed r)
        (scores_small t.routed (priority_to_domain req.priority) r h)

  predict-IsPool :
      (t : Instants) (host : Host) (req : InferenceRequest) (r : Registry)
      → IsPool r
      → IsPool (predict round t host req r).1
  unfolding predict
  predict-IsPool t host req r h =
      after_select-IsPool t host req (routed_to round t req r) r
        (λ w e. (snapshot-idle t.routed r w h (Chosen-Elem (routed_to-Chosen t req r h) e)).0) h

  stream_answer-IsPool :
      (reply : Rpc InferenceResponse) (sending : Option String) (r : Registry)
      (rest : Registry → StreamRun)
      → IsPool r
      → IsPool (rest r).registry
      → IsPool (stream_answer reply sending r rest).registry
  stream_answer-IsPool (status c m) sending r rest h k = h
  stream_answer-IsPool (ok resp) (some e) r rest h k = h
  stream_answer-IsPool (ok resp) none r rest h k = k

  stream_predict-IsPool :
      (events : List Received) (r : Registry)
      → IsPool r
      → IsPool (stream_predict round events r).registry
  unfolding stream_predict
  stream_predict-IsPool [] r h = h
  stream_predict-IsPool (eof ∷ events) r h = h
  stream_predict-IsPool (broken e ∷ events) r h = h
  stream_predict-IsPool (message t host req sending ∷ events) r h =
      let h' = predict-IsPool t host req r h in
      stream_answer-IsPool (predict round t host req r).0 sending (predict round t host req r).1
        (stream_predict round events) h'
        (stream_predict-IsPool events (predict round t host req r).1 h')

pub register_worker-IsPool :
    (zero_time now : Time) (req : RegisterWorkerRequest) (r : Registry)
    → IsPool r
    → IsPool (register_worker zero_time now req r).1
unfolding register_worker worker_of
register_worker-IsPool zero_time now req r h =
    elim (Bool-cases (req.worker_id == "" || req.endpoint == "")) [
      | inl empty ↦ rw empty h
      | inr named ↦
          rw named
            (register-IsPool now (worker_of zero_time req) r refl (omega arith, omega arith) h)
    ]

-- The calls that change the registry, in the order in which they take its lock.
pub data Call : Type 0 where
  predict_call : Instants → Host → InferenceRequest → Call
  stream_call : List Received → Call
  register_call : Time → Time → RegisterWorkerRequest → Call

pub serve : (ℤ → ℤ) → List Call → Registry → Registry
serve round [] r = r
serve round (predict_call t host req ∷ calls) r = serve round calls (predict round t host req r).1
serve round (stream_call events ∷ calls) r =
    serve round calls (stream_predict round events r).registry
serve round (register_call zero_time now req ∷ calls) r =
    serve round calls (register_worker zero_time now req r).1

serve-keeps_IsPool :
    (round : ℤ → ℤ)
    → IsRounding round
    → (calls : List Call) (r : Registry) → IsPool r
    → IsPool (serve round calls r)
unfolding serve
serve-keeps_IsPool round ro [] r h = h
serve-keeps_IsPool round ro (predict_call t host req ∷ calls) r h =
    serve-keeps_IsPool round ro calls (predict round t host req r).1
      (predict-IsPool round ro t host req r h)
serve-keeps_IsPool round ro (stream_call events ∷ calls) r h =
    serve-keeps_IsPool round ro calls (stream_predict round events r).registry
      (stream_predict-IsPool round ro events r h)
serve-keeps_IsPool round ro (register_call zero_time now req ∷ calls) r h =
    serve-keeps_IsPool round ro calls (register_worker zero_time now req r).1
      (register_worker-IsPool zero_time now req r h)

-- After any calls on a new registry, its map is keyed by the workers' ids, every latency is an
-- int64, and no worker has ever a load other than 0.
pub serve-IsPool :
    (round : ℤ → ℤ) (stale_after : Duration) (calls : List Call)
    → IsRounding round
    → IsPool (serve round calls (new_registry stale_after))
serve-IsPool round stale_after calls ro =
    serve-keeps_IsPool round ro calls (new_registry stale_after) (new_registry-IsPool stale_after)
