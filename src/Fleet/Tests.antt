-- ===== src/Fleet/Tests.antt =====
-- A small fleet.
use distributed_ml_inference.Prelude.{
  ℕ, suc, String, true, Option, ◌==◌, if◌then◌else◌, ◌+◌, ◌/◌, ◌≤◌, pos, pos_part, ◌+ℤ◌, wrap64,
  trunc_div, none, some, List, [], ◌∷◌, length, ◌≡◌, refl, arith,
}
use distributed_ml_inference.Fleet.{Stats, Prometheus, Aggregator, new_aggregator}
use distributed_ml_inference.Fleet.Vehicle.{
  Config, Rand, Floats, Http, answered, Vehicle, jitter, start, run,
}
use distributed_ml_inference.Fleet.Vehicle.Ticks.{ticked, requested, counting, run-requested}
use distributed_ml_inference.Fleet.Simulator.{Settings, settings_of, offer, collect}
use distributed_ml_inference.Fleet.Simulator.Ids.{Distinct}
use distributed_ml_inference.Fleet.Simulator.Deltas.{
  Readings, Steps, start as begun, sent, received, sum_of, counters-conserved,
}
use distributed_ml_inference.Models.{Duration}
use distributed_ml_inference.Config.{Environment, duration, int, atoi, magnitude, digits_after}
use distributed_ml_inference.Process.{signals, execute}
use distributed_ml_inference.Process.Orderly.{Life}
use distributed_ml_inference.Fleet.Simulator.Process.{main, simulate, main-Distinct}

-- A generator that counts its draws, and draws 0.
abbrev rand : Rand ℕ
rand = record {
  new_rand = λ seed. 0;
  float64 = λ r. (0, suc r);
  norm_float64 = λ r. (0, suc r);
  int63n = λ n r. (pos 0, suc r);
}

abbrev floats : Floats
floats = record {
  add = λ x y. x;
  sub = λ x y. x;
  mul = λ x y. x;
  div = λ x y. x;
  sin = λ x. x;
  of_int = λ n. 0;
}

-- A gateway that accepts and counts.
abbrev http : Http ℕ ℕ
http = record {
  request_error = λ method url. none;
  marshal = λ req. 0;
  send = λ req n. (answered (pos 200), suc n);
  refusal = λ code. "refused";
}

abbrev cfg : Config
cfg = record {
  id = "v";
  gateway_url = "http://localhost:8080";
  api_key = "k1";
  telemetry_period = pos 1000;
  infer_every = pos 2;
}

abbrev vehicle : Vehicle ℕ
vehicle = record { rng = 3; lat = 0x4042b33333333333; lon = 0xc05e866666666666; tick = pos 0 }

started : start rand floats (counting http) cfg ≡ some (pos 500, vehicle)
unfolding start jitter trunc_div ◌+ℤ◌ wrap64
started = refl

run-requested_example :
    (ticked (run rand floats (counting http) 5 cfg (vehicle, (0, 0))).0 ≡ 5)
    × (requested (run rand floats (counting http) 5 cfg (vehicle, (0, 0))).0 ≡ 5 / 2)
    × ((run rand floats (counting http) 5 cfg (vehicle, (0, 0))).1.1.0 ≡ 5 / 2)
run-requested_example =
    run-requested rand floats http cfg refl 5 2 (pos 500) vehicle 0 refl (omega arith) (omega arith)
      started

abbrev settings : Settings
settings = record {
  fleet_size = pos 3;
  gateway_url = "http://localhost:8080";
  api_key = "k1";
  telemetry_period = pos 1000;
  infer_every = pos 2;
  addr = ":9093";
}

abbrev prometheus : Prometheus ℕ
prometheus = record {
  new_counter = λ namespace name. 0;
  add = λ c x. c + x;
  float64 = λ n. pos_part n;
}

abbrev readings : Readings prometheus
readings = record { value = λ c. c; new_value = λ namespace name. refl; value-add = λ n c h. refl }

abbrev delta : Stats
delta = record { telemetry_ticks = pos 1; infer_ok = pos 1; infer_err = pos 0 }

abbrev after : List Stats × Aggregator ℕ
after = collect prometheus (offer 6 delta [], new_aggregator prometheus)

after_Steps : Steps prometheus 6 after (delta ∷ []) []
after_Steps = received (sent delta begun refl)

counters-conserved_example :
    (length after.0 ≤ 6)
    × (after.1.telemetry_total + sum_of (λ d. d.telemetry_ticks) after.0 + 0 ≡ 1)
    × (after.1.infer_ok_total + sum_of (λ d. d.infer_ok) after.0 + 0 ≡ 1)
    × (after.1.infer_err_total + sum_of (λ d. d.infer_err) after.0 + 0 ≡ 0)
counters-conserved_example = counters-conserved prometheus readings after_Steps

abbrev env : Environment
env key = if key == "FLEET_SIZE" then some "3" else none

abbrev parse_duration : String → Option Duration
parse_duration _ = none

three_vehicles : (settings_of parse_duration env).fleet_size ≡ pos 3
unfolding settings_of int atoi magnitude digits_after
three_vehicles = refl

one_second : (settings_of parse_duration env).telemetry_period ≡ pos 1000000000
unfolding settings_of duration
one_second = refl

main-Distinct_example :
    (cfgs : List Config) × (length cfgs ≡ 3)
    × Distinct cfgs
    × (main true parse_duration env ≡ some (simulate true (settings_of parse_duration env) cfgs))
    × Life (signals ∷ []) none true (execute (simulate true (settings_of parse_duration env) cfgs))
main-Distinct_example =
    main-Distinct true parse_duration env 3 1000000000 three_vehicles (omega arith) one_second
      (omega arith)
