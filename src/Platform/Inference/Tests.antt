-- ===== src/Platform/Inference/Tests.antt =====
-- A synchronous inference through the gateway and the router.
use distributed_ml_inference.Prelude.{
  ℤ, pos, ◌≤ℤ◌, String, inr, true, false, none, some, [], ◌∷◌, Elem, lookup, insert, keep, sort,
  insert_sorted, ◌*ℤ◌, clamp64, trunc_div, floor_div, ◌≡◌, refl, ◌-ℤ◌, ◌+ℤ◌,
}
use distributed_ml_inference.Models.{precision_fp16}
use distributed_ml_inference.Proto
use distributed_ml_inference.Proto.{InferenceRequest, RegisterWorkerRequest, Rpc}
use distributed_ml_inference.Router.Registry.{
  Worker, Registry, new_registry, register, snapshot, is_live,
}
use distributed_ml_inference.Router.Selector.{
  score, select, max_float64, precision_rank, eligible, is_eligible, supports_model, supports,
  choose, pick,
}
use distributed_ml_inference.Router.Selector.Eligible.{Serves}
use distributed_ml_inference.Router.Selector.Rounding.{IsRounding}
use distributed_ml_inference.Router.Server
use distributed_ml_inference.Router.Server.{
  Instants, replied, WorkerPredictResponse, predict, routed_to, register_worker, priority_to_domain,
  precision_to_domain, after_select, forward, receive, finish, response, latency, queue_ms,
  worker_of,
}
use distributed_ml_inference.Router.Server.Pool.{
  IsPool, new_registry-IsPool, register_worker-IsPool,
}
use distributed_ml_inference.Gateway.Handler
use distributed_ml_inference.Gateway.Handler.{
  InferRequest, InferResponse, inferred, is_incomplete, infer, precision_to_proto,
  priority_to_proto,
}
use distributed_ml_inference.Platform.Inference.{infer-Served}

abbrev no_rounding : ℤ → ℤ
no_rounding a = a

no_rounding-IsRounding : IsRounding no_rounding
no_rounding-IsRounding = record {
  mono = λ a b h. h;
  exact = λ a p n. refl;
  power_of_two = λ k h. refl;
}

abbrev registration : RegisterWorkerRequest
registration = record {
  worker_id = "w1";
  supported_models = "detector" ∷ [];
  max_precision = Proto.Precision.fp32;
  gpu_available = true;
  endpoint = "http://w1";
}

abbrev pool : Registry
pool = (register_worker (pos 0) (pos 100) registration (new_registry (pos 50))).1

pool-IsPool : IsPool pool
pool-IsPool =
    register_worker-IsPool (pos 0) (pos 100) registration (new_registry (pos 50))
      (new_registry-IsPool (pos 50))

abbrev at_120 : Instants
at_120 = record { start = pos 120; routed = pos 120; replied = pos 130; recorded = pos 131 }

abbrev answer : WorkerPredictResponse
answer = record {
  output = 9 ∷ [];
  predicted_label = "stop_sign";
  confidence = 3;
  model_version = "v7";
  precision_used = "fp16";
}

abbrev router : Server.Host
router = record {
  describe = λ _. "failed";
  new_request = λ _. none;
  send = λ _ _. replied 200 "{}";
  decode = λ _. inr answer;
}

abbrev gateway : Handler.Host String
gateway = record {
  narrow = λ x. x;
  empty = "";
  encode_job = λ _. some "";
  router = λ q. (predict no_rounding at_120 router q pool).0;
  error_text = λ _ text. text;
  new_id = "r1";
  now = pos 0;
}

abbrev asked : InferRequest
asked = record {
  vehicle_id = "v1";
  model_name = "detector";
  model_version = "";
  precision = precision_fp16;
  features = 7 ∷ [];
  priority = "critical";
}

abbrev answered : InferResponse
answered = record {
  request_id = "r1";
  worker_id = "w1";
  model_version = "v7";
  predicted_label = "stop_sign";
  confidence = 3;
  latency_ms = pos 0;
}

infer_run : infer gateway (some asked) ≡ record { status = 200; body = inferred answered }
unfolding infer precision_to_proto priority_to_proto floor_div predict after_select routed_to
    snapshot is_live select eligible is_eligible supports_model supports precision_rank
    precision_to_domain choose pick score priority_to_domain forward receive finish response latency
    queue_ms register_worker worker_of register new_registry insert lookup keep sort insert_sorted
    ◌-ℤ◌ ◌*ℤ◌ ◌+ℤ◌ max_float64 clamp64 trunc_div
infer_run = refl

infer-Served_example :
    (req : InferRequest) × (some asked ≡ some req)
    × (is_incomplete req ≡ false)
    × (w : Worker) × (answered.request_id ≡ "r1")
    × (answered.worker_id ≡ w.id)
    × Elem w (snapshot (pos 120) pool)
    × Serves req.model_name (precision_to_domain (precision_to_proto req.precision)) w
    × ((v : Worker)
        → Elem v (snapshot (pos 120) pool)
        → Serves req.model_name (precision_to_domain (precision_to_proto req.precision)) v
        → score no_rounding (priority_to_domain (priority_to_proto req.priority)) w
          ≤ℤ score no_rounding (priority_to_domain (priority_to_proto req.priority)) v)
infer-Served_example =
    infer-Served gateway no_rounding no_rounding-IsRounding at_120 router pool (λ q. refl)
      pool-IsPool (some asked) answered infer_run
