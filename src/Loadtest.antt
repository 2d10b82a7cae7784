-- ===== src/Loadtest.antt =====
-- benchmarks/loadtest/main.go: the requests of its workers, and the report. The HTTP client,
-- json.Marshal and the arithmetic of float64 are the parameters that the fleet's vehicles have too.
pub mod Percentiles
pub mod Tallies
pub mod Reports
pub mod Workers
mod Tests
use distributed_ml_inference.Prelude.{
  ℕ, zero, suc, ◌-◌, ℤ, pos, negsuc, eqb_ℤ, leb_ℤ, ltb_ℤ, add64, sub64, mul64, trunc_div, String,
  text_append, Bool, true, false, Option, none, some, List, [], ◌∷◌, ◌++◌, length, ◌==◌, sort,
  if◌then◌else◌,
}
use distributed_ml_inference.Models.{F64, Duration}
use distributed_ml_inference.Fleet.Vehicle.{
  Rand, Floats, InferRequest, HttpRequest, Reply, failed, answered, Http,
}

pub record Result : Type 0 where
  pub latency : Duration
  pub ok : Bool

-- The flags.
pub record Flags : Type 0 where
  pub url : String
  pub duration : Duration
  pub api_key : String
  pub model_name : String

abbrev pub is_ok : Reply → Bool
is_ok (failed e) = false
is_ok (answered code) = eqb_ℤ code (pos 200)

module _ {R B N : Type 0} (rand : Rand R) (floats : Floats) (http : Http B N) where
  -- The features: rng.Float64() * 120, rng.NormFloat64() * 3, rng.NormFloat64() * 10, and two more.
  abbrev pub features : R → List F64 × R
  features rng =
      let a = rand.float64 rng in
      let b = rand.norm_float64 a.1 in
      let c = rand.norm_float64 b.1 in
      let d = rand.norm_float64 c.1 in
      let e = rand.norm_float64 d.1 in
      (
        floats.mul a.0 0x405e000000000000
            ∷ floats.mul b.0 0x4008000000000000
            ∷ floats.mul c.0 0x4024000000000000
            ∷ d.0
            ∷ e.0
            ∷ [],
        e.1,
      )

  -- A turn of a worker named by `vehicle`, whose request takes `lat`; none where the nil request of
  -- http.NewRequest makes it panic.
  unfoldable pub hammer : Flags → String → Duration → R × N → Option (Result × (R × N))
  hammer flags vehicle lat (rng, net) =
      let drawn = features rng in
      let url = text_append flags.url "/v1/infer" in
      let request : HttpRequest B = record {
        method = "POST";
        url = url;
        headers =
            ("Content-Type", "application/json")
            ∷ (if flags.api_key == "" then [] else ("X-API-Key", flags.api_key) ∷ []);
        body = http.marshal (record {
          vehicle_id = vehicle;
          model_name = flags.model_name;
          precision = "fp32";
          priority = "normal";
          features = drawn.0;
        });
      } in
      let sent = http.send request net in
      elim (http.request_error "POST" url) [
        | some e ↦ none
        | none ↦ some (record { latency = lat; ok = is_ok sent.0 }, (drawn.1, sent.1))
      ]

-- An index out of range panics.
abbrev pub at {ℓ} : {A : Type ℓ} → ℕ → List A → Option A
at n [] = none
at zero (x ∷ xs) = some x
at (suc n) (x ∷ xs) = at n xs

abbrev pub index {ℓ} : {A : Type ℓ} → ℤ → List A → Option A
index (pos n) xs = at n xs
index (negsuc n) xs = none

unfoldable pub percentile : List Duration → ℤ → Option Duration
unfolding trunc_div
percentile sorted p =
    let len = pos (length sorted) in
    let idx = trunc_div (mul64 p len) 100 in
    index (if leb_ℤ len idx then sub64 len (pos 1) else idx) sorted

-- The variables of the loop over `resultsCh`.
pub record Tally : Type 0 where
  pub latencies : List Duration
  pub ok_count : ℤ
  pub err_count : ℤ

abbrev pub counted : Result → Tally → Tally
counted r t =
    if r.ok
    then record t { latencies = t.latencies ++ r.latency ∷ []; ok_count = add64 t.ok_count (pos 1) }
    else record t {
      latencies = t.latencies ++ r.latency ∷ [];
      err_count = add64 t.err_count (pos 1);
    }

unfoldable pub tally_from : Tally → List Result → Tally
tally_from t [] = t
tally_from t (r ∷ results) = tally_from (counted r t) results

-- The numbers that are printed.
pub record Report : Type 0 where
  pub total : ℤ
  pub ok_count : ℤ
  pub ok_pct : F64
  pub err_count : ℤ
  pub err_pct : F64
  pub rps : F64
  pub p50 : Option Duration
  pub p95 : Option Duration
  pub p99 : Option Duration
  pub max : Option Duration

-- 100*float64(n)/float64(total)
abbrev pub percentage : Floats → ℤ → ℤ → F64
percentage floats n total =
    floats.div (floats.mul 0x4059000000000000 (floats.of_int n)) (floats.of_int total)

-- What `main` prints of the latencies and the counts. `seconds` is Duration.Seconds.
unfoldable pub printed : Floats → (Duration → F64) → Flags → Tally → Report
unfolding percentile sort
printed floats seconds flags t =
    let latencies = sort leb_ℤ t.latencies in
    let total = pos (length latencies) in
    record {
      total = total;
      ok_count = t.ok_count;
      ok_pct = percentage floats t.ok_count total;
      err_count = t.err_count;
      err_pct = percentage floats t.err_count total;
      rps = floats.div (floats.of_int total) (seconds flags.duration);
      p50 = percentile latencies (pos 50);
      p95 = percentile latencies (pos 95);
      p99 = percentile latencies (pos 99);
      max = index (sub64 total (pos 1)) latencies;
    }

-- The report on the results, in the order in which they arrive; none where `main` prints that no
-- requests completed.
unfoldable pub report : Floats → (Duration → F64) → Flags → List Result → Option Report
unfolding printed tally_from
report floats seconds flags results =
    let t = tally_from (record { latencies = []; ok_count = pos 0; err_count = pos 0 }) results in
    if eqb_ℤ (pos (length t.latencies)) (pos 0) then none else some (printed floats seconds flags t)
