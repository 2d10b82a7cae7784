-- ===== src/Gateway/Service/Tests.antt =====
-- The gateway's server on concrete requests.
use distributed_ml_inference.Prelude.{
  ℕ, ◌+◌, ◌-◌, eqb, pos, true, false, some, List, [], ◌∷◌, ◌≡◌, ◌⊎◌, if◌then◌else◌,
}
use distributed_ml_inference.Models.{precision_int8}
use distributed_ml_inference.Proto.{status, unavailable}
use distributed_ml_inference.Queue.Memory.{Memory, memory_ops}
use distributed_ml_inference.Metrics.{Prometheus, ResponseWriter, new_set}
use distributed_ml_inference.Gateway.Ratelimit.{Rate, Limiter, new_limiters}
use distributed_ml_inference.Gateway.Handler.{Host, Body}
use distributed_ml_inference.Gateway.Service.{Request, Gateway, serve}
use distributed_ml_inference.Gateway.Service.Entering.{Enters, serve-Enters}

-- A bucket of two tokens, which are never put back.
abbrev tokens : Rate ℕ
tokens = record { new_limiter = λ _ _. 2; allow = λ _ n. (if eqb n 0 then false else true, n - 1) }

abbrev prometheus : Prometheus ℕ ℕ ℕ
prometheus = record {
  new_counter_vec = λ namespace name help labels. 0;
  new_histogram_vec = λ namespace name help buckets labels. 0;
  new_gauge = λ namespace name help. 0;
  count = λ ls c. c + 1;
  observe = λ ls v h. h + 1;
  inc = λ g. g + 1;
  dec = λ g. g - 1;
  seconds = λ d. 0;
  itoa = λ code. "";
}

abbrev writer : ResponseWriter Body (List ℕ)
writer = record { write_header = λ code w. code ∷ w; write = λ b w. 0 ∷ w }

abbrev gateway : Gateway ℕ ℕ ℕ ℕ ℕ (Memory ℕ) (List ℕ)
gateway = record {
  rate = tokens;
  prometheus = prometheus;
  writer = writer;
  expose = λ set w. 1 ∷ w;
  mux_error = λ code w. code ∷ w;
  keys = "k1" ∷ [];
  ops = memory_ops;
  jobs_topic = "jobs";
}

abbrev host : Host ℕ
host = record {
  narrow = λ x. x;
  empty = 0;
  encode_job = λ _. some 0;
  router = λ _. status unavailable "down";
  error_text = λ _ text. text;
  new_id = "r1";
  now = pos 5000000;
}

abbrev submission : Request
submission = record {
  method = "POST";
  parts = "v1" ∷ "jobs" ∷ [];
  elapsed = pos 3;
  caller = record {
    api_key = "k1";
    host = some "10.0.0.1";
    remote_addr = "10.0.0.1:5000";
    at = pos 1;
  };
  decoded = some (record {
    vehicle_id = "v1";
    model_name = "detector";
    model_version = "";
    precision = precision_int8;
    features = 7 ∷ [];
    priority = "high";
  });
}

abbrev idle : Memory ℕ
idle = record { topics = []; dlq = []; seq = pos 0; closed = false }

abbrev limiter : Limiter ℕ
limiter = new_limiters tokens 0 (pos 2)

serve-Enters_example :
    ((serve gateway host submission [] (new_set prometheus "gateway", (limiter, idle))).1.1.1
      ≡ idle)
    ⊎ Enters gateway submission limiter
serve-Enters_example =
    serve-Enters gateway host submission [] (new_set prometheus "gateway") limiter idle
