-- ===== src/Fleet.antt =====
-- services/fleet-simulator-go/internal/telemetry/aggregator.go. The counters of Prometheus, of a
-- type `C`, and float64(x) are parameters.
mod Tests
pub mod Vehicle
pub mod Simulator
use distributed_ml_inference.Prelude.{ℤ, pos, ltb_ℤ, String, List, [], ◌∷◌, if◌then◌else◌}
use distributed_ml_inference.Models.{F64}

-- vehicle.Stats
pub record Stats : Type 0 where
  pub telemetry_ticks : ℤ
  pub infer_ok : ℤ
  pub infer_err : ℤ

pub record Prometheus (C : Type 0) : Type 0 where
  pub new_counter : (namespace name : String) → C
  pub add : C → F64 → C
  pub float64 : ℤ → F64

pub record Aggregator (C : Type 0) : Type 0 where
  pub telemetry_total : C
  pub infer_ok_total : C
  pub infer_err_total : C
  pub active_vehicles : C

module _ {C : Type 0} (prometheus : Prometheus C) where
  unfoldable pub new_aggregator : Aggregator C
  new_aggregator =
      let named = prometheus.new_counter "fleet_simulator" in
      record {
        telemetry_total = named "telemetry_ticks_total";
        infer_ok_total = named "infer_ok_total";
        infer_err_total = named "infer_err_total";
        active_vehicles = named "active_vehicles";
      }

  -- Register
  unfoldable pub register : {R : Type 0} → (must_register : List C → R → R) → Aggregator C → R → R
  register must_register a reg =
      must_register
        (a.telemetry_total ∷ a.infer_ok_total ∷ a.infer_err_total ∷ a.active_vehicles ∷ []) reg

  -- A counter to which a positive count is added.
  abbrev pub added : C → ℤ → C
  added c n = if ltb_ℤ (pos 0) n then prometheus.add c (prometheus.float64 n) else c

  unfoldable pub observe : Stats → Aggregator C → Aggregator C
  observe delta a = record a {
    telemetry_total = added a.telemetry_total delta.telemetry_ticks;
    infer_ok_total = added a.infer_ok_total delta.infer_ok;
    infer_err_total = added a.infer_err_total delta.infer_err;
  }
