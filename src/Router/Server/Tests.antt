-- ===== src/Router/Server/Tests.antt =====
-- services/router-go on concrete workers and requests.
use distributed_ml_inference.Prelude.{
  ℤ, pos, ◌<ℤ◌, String, inl, inr, true, false, none, some, [], ◌∷◌, Elem, here, there, find_first,
  lookup, insert, keep, sort, insert_sorted, ◌*ℤ◌, clamp64, trunc_div, Elem-cons, ◌≡◌, refl, ltb_ℤ,
  ◌-ℤ◌, ◌+ℤ◌, if◌then◌else◌, eq_iff, arith,
}
use distributed_ml_inference.Models.{precision_fp32, precision_fp16, priority_critical}
use distributed_ml_inference.Proto
use distributed_ml_inference.Proto.{
  InferenceRequest, InferenceResponse, RegisterWorkerRequest, Rpc, ok, status, unavailable,
}
use distributed_ml_inference.Router.Registry.{
  Worker, Registry, new_registry, register, snapshot, stamp, is_live,
}
use distributed_ml_inference.Router.Registry.Keyed.{IsKeyed}
use distributed_ml_inference.Router.Registry.Snapshot.{has_id, registered_until_stale}
use distributed_ml_inference.Router.Selector.{
  selected, score, select, max_float64, precision_rank, eligible, is_eligible, supports_model,
  supports, choose, pick,
}
use distributed_ml_inference.Router.Selector.Best.{Chosen, select-Chosen}
use distributed_ml_inference.Router.Selector.Rounding.{IsRounding, score-lt-max_float64}
use distributed_ml_inference.Router.Server.{
  Instants, Host, failed, replied, WorkerPredictResponse, predict, routed_to, register_worker,
  priority_to_domain, precision_to_domain, after_select, forward, receive, finish, response,
  latency, queue_ms, worker_of,
}
use distributed_ml_inference.Router.Server.Pool.{
  IsPool, new_registry-IsPool, register_worker-IsPool, predict_call, register_call, serve,
  serve-IsPool, routed_to-Chosen,
}
use distributed_ml_inference.Router.Server.Replies.{
  Answered, predict-Answered, register_worker-routes,
}

abbrev no_rounding : ℤ → ℤ
no_rounding a = a

no_rounding-IsRounding : IsRounding no_rounding
no_rounding-IsRounding = record {
  mono = λ a b h. h;
  exact = λ a p n. refl;
  power_of_two = λ k h. refl;
}

abbrev slow : Worker
slow = record {
  info = record {
    id = "w1";
    supported_models = "detector" ∷ [];
    gpu_available = false;
    max_precision = precision_fp32;
    last_latency_ms = pos 80;
    in_flight = pos 1;
    last_heartbeat = pos 100;
  };
  endpoint = "http://w1";
}

abbrev fast : Worker
fast = record {
  info = record {
    id = "w2";
    supported_models = "planner" ∷ "detector" ∷ [];
    gpu_available = true;
    max_precision = precision_fp32;
    last_latency_ms = pos 20;
    in_flight = pos 0;
    last_heartbeat = pos 100;
  };
  endpoint = "http://w2";
}

scores_small :
    (w : Worker) → Elem w (slow ∷ fast ∷ []) → score no_rounding priority_critical w <ℤ max_float64
scores_small w here =
    score-lt-max_float64 no_rounding no_rounding-IsRounding priority_critical slow (omega arith)
      (omega arith)
scores_small w (there here) =
    score-lt-max_float64 no_rounding no_rounding-IsRounding priority_critical fast (omega arith)
      (omega arith)
scores_small w (there (there e)) = elim e [ ]

select-Chosen_example :
    Chosen
      (score no_rounding priority_critical)
      "detector"
      precision_fp16
      (slow ∷ fast ∷ [])
      (select no_rounding (slow ∷ fast ∷ []) "detector" precision_fp16 priority_critical)
select-Chosen_example =
    select-Chosen no_rounding priority_critical "detector" precision_fp16 (slow ∷ fast ∷ [])
      scores_small

-- A registry with one worker.
abbrev registration : RegisterWorkerRequest
registration = record {
  worker_id = "w1";
  supported_models = "detector" ∷ [];
  max_precision = Proto.Precision.fp32;
  gpu_available = true;
  endpoint = "http://w1";
}

abbrev pool : Registry
pool = (register_worker (pos 0) (pos 100) registration (new_registry (pos 50))).1

pool-IsPool : IsPool pool
pool-IsPool =
    register_worker-IsPool (pos 0) (pos 100) registration (new_registry (pos 50))
      (new_registry-IsPool (pos 50))

abbrev asked : InferenceRequest
asked = record {
  request_id = "r1";
  vehicle_id = "v1";
  model_name = "detector";
  model_version = "";
  preferred_precision = Proto.Precision.fp16;
  features = 7 ∷ [];
  priority = Proto.Priority.critical;
  submitted_at_unix_ms = pos 0;
}

abbrev at_120 : Instants
at_120 = record { start = pos 120; routed = pos 120; replied = pos 130; recorded = pos 131 }

abbrev answer : WorkerPredictResponse
answer = record {
  output = 9 ∷ [];
  predicted_label = "stop_sign";
  confidence = 3;
  model_version = "v7";
  precision_used = "fp16";
}

abbrev answering : Host
answering = record {
  describe = λ _. "failed";
  new_request = λ _. none;
  send = λ _ _. replied 200 "{}";
  decode = λ _. inr answer;
}

abbrev unreachable : Host
unreachable = record answering { send = λ _ _. failed "refused" }

registered_until_stale_example :
    find_first (has_id "w2") (snapshot (pos 120) (register (pos 100) fast pool))
    ≡ (if ltb_ℤ (pos 120 -ℤ pool.stale_after) (pos 100) then some (stamp (pos 100) fast) else none)
registered_until_stale_example =
    registered_until_stale (pos 100) (pos 120) fast pool (pool-IsPool.keyed)

routed_to-Chosen_example :
    Chosen
      (score no_rounding (priority_to_domain asked.priority))
      asked.model_name
      (precision_to_domain asked.preferred_precision)
      (snapshot at_120.routed pool)
      (routed_to no_rounding at_120 asked pool)
routed_to-Chosen_example =
    routed_to-Chosen no_rounding no_rounding-IsRounding at_120 asked pool pool-IsPool

serve-IsPool_example : IsPool (
    serve no_rounding
      (register_call (pos 0) (pos 100) registration ∷ predict_call at_120 answering asked ∷ [])
      (new_registry (pos 50)))
serve-IsPool_example =
    serve-IsPool no_rounding (pos 50)
      (register_call (pos 0) (pos 100) registration ∷ predict_call at_120 answering asked ∷ [])
      no_rounding-IsRounding

register_worker-routes_example :
    (w : Worker) × (routed_to no_rounding at_120 asked
        (register_worker (pos 0) (pos 100) registration (new_registry (pos 50))).1
      ≡ selected w)
unfolding precision_rank precision_to_domain new_registry ◌-ℤ◌
register_worker-routes_example =
    register_worker-routes no_rounding (pos 0) (pos 100) registration at_120 asked
      (new_registry (pos 50)) no_rounding-IsRounding (new_registry-IsPool (pos 50))
      (λ e. absurd (ground (arith, eq_iff "w1" "")))
      (λ e. absurd (ground (arith, eq_iff "http://w1" ""))) here (omega arith) refl

abbrev answered : InferenceResponse
answered = record {
  request_id = "r1";
  worker_id = "w1";
  model_name = "detector";
  model_version = "v7";
  precision_used = Proto.Precision.fp16;
  output = 9 ∷ [];
  predicted_label = "stop_sign";
  confidence = 3;
  latency_ms = pos 0;
  queue_time_ms = pos 0;
}

predict_run : (predict no_rounding at_120 answering asked pool).0 ≡ ok answered
unfolding predict after_select routed_to snapshot is_live select eligible is_eligible supports_model
    supports precision_rank precision_to_domain choose pick score priority_to_domain forward receive
    finish response latency queue_ms register_worker worker_of register new_registry insert lookup
    keep sort insert_sorted ◌-ℤ◌ ◌*ℤ◌ ◌+ℤ◌ max_float64 clamp64 trunc_div
predict_run = refl

predict-Answered_example :
    Answered no_rounding at_120 answering asked pool answered
      (predict no_rounding at_120 answering asked pool).1
predict-Answered_example =
    predict-Answered no_rounding at_120 answering asked pool answered predict_run

predict_failure :
    (predict no_rounding at_120 unreachable asked pool).0 ≡ status unavailable "failed"
unfolding predict after_select routed_to snapshot is_live select eligible is_eligible supports_model
    supports precision_rank precision_to_domain choose pick score priority_to_domain forward receive
    finish response latency queue_ms register_worker worker_of register new_registry insert lookup
    keep sort insert_sorted ◌-ℤ◌ ◌*ℤ◌ ◌+ℤ◌ max_float64 clamp64 trunc_div
predict_failure = refl

-- Two workers in two orders.
abbrev two_workers : Registry
two_workers = record pool { workers = ("w1", slow) ∷ ("w2", fast) ∷ [] }

two_workers-IsKeyed : IsKeyed two_workers
two_workers-IsKeyed = record {
  named = (refl, (refl, tt));
  distinct = (apart, ((λ e. elim e [ ]), tt));
}
  where
    apart : Elem {A = String} "w1" ("w2" ∷ []) → ⊥
    apart e = elim (Elem-cons e) [
      | inl p ↦ absurd (ground (arith, eq_iff "w1" "w2"))
      | inr later ↦ elim later [ ]
    ]
