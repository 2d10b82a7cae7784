-- ===== src/Metrics.antt =====
-- shared/pkg/metrics/metrics.go. Prometheus' counters, histograms and gauges, of types `C`, `H` and
-- `G`, are parameters, with time.Duration.Seconds() and the text that strconv.Itoa makes of a status.
pub mod Counts
mod Tests
use distributed_ml_inference.Prelude.{ℕ, leb, String, List, [], ◌∷◌, if◌then◌else◌}
use distributed_ml_inference.Models.{F64, Duration}

pub record Prometheus (C H G : Type 0) : Type 0 where
  pub new_counter_vec : (namespace name help : String) → (labels : List String) → C
  pub new_histogram_vec :
      (namespace name help : String) → (buckets : List F64) → (labels : List String) → H
  pub new_gauge : (namespace name help : String) → G
  -- WithLabelValues(…).Inc()
  pub count : List String → C → C
  -- WithLabelValues(…).Observe(…)
  pub observe : List String → F64 → H → H
  pub inc : G → G
  pub dec : G → G
  pub seconds : Duration → F64
  pub itoa : ℕ → String

pub record Set (C H G : Type 0) : Type 0 where
  pub requests_total : C
  pub request_duration : H
  pub in_flight : G
  pub errors_total : C

-- An http.ResponseWriter: what its calls make of it.
pub record ResponseWriter (B W : Type 0) : Type 0 where
  pub write_header : ℕ → W → W
  pub write : B → W → W

pub record StatusRecorder (W : Type 0) : Type 0 where
  pub response_writer : W
  pub status : ℕ

-- WriteHeader of the recorder; Write is that of the writer that it embeds.
unfoldable pub status_recorder :
    {B W : Type 0} → ResponseWriter B W → ResponseWriter B (StatusRecorder W)
status_recorder writer = record {
  write_header = λ code r. record {
    response_writer = writer.write_header code r.response_writer;
    status = code;
  };
  write = λ b r. record r { response_writer = writer.write b r.response_writer };
}

-- .001, .005, .01, .025, .05, .1, .25, .5, 1, 2.5, 5 and 10
abbrev pub buckets : List F64
buckets =
    0x3f50624dd2f1a9fc ∷ 0x3f747ae147ae147b ∷ 0x3f847ae147ae147b ∷ 0x3f9999999999999a
    ∷ 0x3fa999999999999a ∷ 0x3fb999999999999a ∷ 0x3fd0000000000000 ∷ 0x3fe0000000000000
    ∷ 0x3ff0000000000000 ∷ 0x4004000000000000 ∷ 0x4014000000000000 ∷ 0x4024000000000000 ∷ []

module _ {C H G : Type 0} (prometheus : Prometheus C H G) where
  -- New
  unfoldable pub new_set : String → Set C H G
  new_set service = record {
    requests_total =
        prometheus.new_counter_vec service "requests_total" "Total number of requests handled."
          ("route" ∷ "method" ∷ "status" ∷ []);
    request_duration =
        prometheus.new_histogram_vec service "request_duration_seconds"
          "Request duration in seconds." buckets ("route" ∷ "method" ∷ []);
    in_flight =
        prometheus.new_gauge service "in_flight_requests"
          "Number of requests currently being processed.";
    errors_total =
        prometheus.new_counter_vec service "errors_total" "Total number of handler errors."
          ("route" ∷ "kind" ∷ []);
  }

  -- What Middleware does before the next handler.
  unfoldable pub begin : Set C H G → Set C H G
  begin s = record s { in_flight = prometheus.inc s.in_flight }

  -- What Middleware does after it, the deferred call included.
  unfoldable pub finish : (route method : String) → Duration → ℕ → Set C H G → Set C H G
  finish route method elapsed status s = record {
    requests_total =
        prometheus.count (route ∷ method ∷ prometheus.itoa status ∷ []) s.requests_total;
    request_duration =
        prometheus.observe (route ∷ method ∷ []) (prometheus.seconds elapsed) s.request_duration;
    in_flight = prometheus.dec s.in_flight;
    errors_total =
        if leb 500 status
        then prometheus.count (route ∷ "server_error" ∷ []) s.errors_total
        else s.errors_total;
  }

  -- The next handler writes to the recorder, and may change the rest of the program's state `S`
  -- and, as other requests are served meanwhile, the metrics.
  unfoldable pub middleware :
      {S W : Type 0}
      → (route method : String) → Duration
      → (StatusRecorder W → Set C H G × S → StatusRecorder W × (Set C H G × S))
      → W
      → Set C H G × S
      → W × (Set C H G × S)
  unfolding begin finish
  middleware route method elapsed next w (s, state) =
      let served = next (record { response_writer = w; status = 200 }) (begin s, state) in
      (
        served.0.response_writer,
        (finish route method elapsed served.0.status served.1.0, served.1.1),
      )
