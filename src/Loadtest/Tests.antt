-- ===== src/Loadtest/Tests.antt =====
-- A load test of two requests.
use distributed_ml_inference.Prelude.{
  ℕ, suc, eqb, pos, String, text_append, none, some, [], ◌∷◌, length, true, ◌≡◌, refl,
  if◌then◌else◌, arith,
}
use distributed_ml_inference.Fleet.Vehicle.{Rand, Floats, Http, HttpRequest, answered}
use distributed_ml_inference.Loadtest.{Result, Flags, Report, hammer, report}
use distributed_ml_inference.Loadtest.Reports.{Summarises}
use distributed_ml_inference.Loadtest.Workers.{
  Hammers, started, turned, advanced, logging, asked, hammered-Summarises,
}

abbrev floats : Floats
floats = record {
  add = λ x y. x;
  sub = λ x y. x;
  mul = λ x y. x;
  div = λ x y. x;
  sin = λ x. x;
  of_int = λ n. 0;
}

abbrev flags : Flags
flags = record {
  url = "http://localhost:8080";
  duration = pos 20000000000;
  api_key = "devkey";
  model_name = "driving-event-classifier";
}

-- A generator that counts its draws, and a gateway that answers 200 and counts.
abbrev rand : Rand ℕ
rand = record {
  new_rand = λ seed. 0;
  float64 = λ r. (0, suc r);
  norm_float64 = λ r. (0, suc r);
  int63n = λ n r. (pos 0, suc r);
}

abbrev http : Http ℕ ℕ
http = record {
  request_error = λ method url. none;
  marshal = λ req. length req.features;
  send = λ req n. (answered (pos 200), suc n);
  refusal = λ code. "";
}

abbrev name : ℕ → String
name i = if eqb i 0 then "loadtest-0" else "loadtest-1"

abbrev good_result : Result
good_result = record { latency = pos 10; ok = true }

abbrev rngs : ℕ → ℕ
rngs = advanced 0 5 (advanced 1 5 (λ i. rand.new_rand (pos i)))

-- A request of five features.
abbrev sent_request : HttpRequest ℕ
sent_request = record {
  method = "POST";
  url = text_append flags.url "/v1/infer";
  headers = ("Content-Type", "application/json") ∷ ("X-API-Key", "devkey") ∷ [];
  body = 5;
}

-- A turn of worker 1, then one of worker 0.
two_turns :
    Hammers rand floats
      (logging http)
      name
      flags
      2
      ([], 0)
      (0 ∷ 1 ∷ [])
      (good_result ∷ good_result ∷ [])
      rngs
      (sent_request ∷ sent_request ∷ [], 2)
unfolding hammer
two_turns =
    turned 0 (pos 10) good_result 5 (sent_request ∷ sent_request ∷ [], 2) (omega arith) refl
      (turned 1 (pos 10) good_result 5 (sent_request ∷ [], 1) (omega arith) refl started)

hammered-Summarises_example :
    (r : Report) × (report floats (λ d. 0) flags (good_result ∷ good_result ∷ []) ≡ some r)
    × Summarises (good_result ∷ good_result ∷ []) r
    × (length (good_result ∷ good_result ∷ []) ≡ 2)
    × (sent_request ∷ sent_request ∷ [] ≡ asked rand floats http name flags (0 ∷ 1 ∷ []))
hammered-Summarises_example =
    hammered-Summarises rand floats http name flags 2 0 (λ d. 0) two_turns (omega arith)
      (omega arith)
