-- ===== src/Fleet/Simulator.antt =====
-- services/fleet-simulator-go/cmd/simulator/main.go: the fleet that it starts, and the channel between
-- the vehicles and the aggregator.
pub mod Ids
pub mod Deltas
pub mod Process
use distributed_ml_inference.Prelude.{
  ℕ, zero, suc, ◌/◌, ◌%◌, ℤ, pos, pos_part, eqb_ℤ, eqb, ltb, mul64, String, text_append, Option,
  none, some, List, [], ◌∷◌, ◌++◌, length, if◌then◌else◌,
}
use distributed_ml_inference.Models.{F64, Duration}
use distributed_ml_inference.Config.{Environment, string, int, duration}
use distributed_ml_inference.Queue.Itoa.{digit}
use distributed_ml_inference.Fleet.{
  Stats, Prometheus, Aggregator, new_aggregator, register, observe,
}
use distributed_ml_inference.Fleet.Vehicle.{Config}

-- The loop of `itoa`, which puts each digit before the others; `none` is fuel that was not enough.
unfoldable pub prepend_digits : ℕ → ℕ → String → Option String
unfolding digit
prepend_digits zero n digits = if eqb n 0 then some digits else none
prepend_digits (suc fuel) n digits =
    let rest = prepend_digits fuel (n / 10) (String.◌∷◌ (digit (n % 10)) digits) in
    if eqb n 0 then some digits else rest

-- The loop does not run for a number below 0.
unfoldable pub itoa : ℤ → Option String
unfolding prepend_digits
itoa n = if eqb_ℤ n (pos 0) then some "0" else prepend_digits 20 (pos_part n) ""

abbrev pub prefixed : Option String → Option String
prefixed none = none
prefixed (some s) = some (text_append "vehicle-" s)

-- vehicleID
unfoldable pub vehicle_id : ℤ → Option String
unfolding itoa
vehicle_id i = prefixed (itoa i)

pub record Settings : Type 0 where
  pub fleet_size : ℤ
  pub gateway_url : String
  pub api_key : String
  pub telemetry_period : Duration
  pub infer_every : ℤ
  pub addr : String

-- What `main` reads from the environment, where `parse_duration` is time.ParseDuration.
unfoldable pub settings_of : (String → Option Duration) → Environment → Settings
settings_of parse_duration env = record {
  fleet_size = int env "FLEET_SIZE" (pos 100);
  gateway_url = string env "GATEWAY_URL" "http://localhost:8080";
  api_key = string env "GATEWAY_API_KEY" "";
  telemetry_period = duration env parse_duration "TELEMETRY_PERIOD" (pos 1000000000);
  infer_every = int env "INFER_EVERY_N_TICKS" (pos 5);
  addr = string env "SIMULATOR_METRICS_ADDR" ":9093";
}

abbrev pub config_for : Settings → String → Config
config_for settings id = record {
  id = id;
  gateway_url = settings.gateway_url;
  api_key = settings.api_key;
  telemetry_period = settings.telemetry_period;
  infer_every = settings.infer_every;
}

abbrev pub with_config : Settings → Option String → Option (List Config) → Option (List Config)
with_config settings none rest = none
with_config settings (some id) none = none
with_config settings (some id) (some cfgs) = some (config_for settings id ∷ cfgs)

-- The vehicles of the loop `for i := 0; i < fleetSize; i++` from `i` on.
unfoldable pub fleet_from : ℕ → ℕ → Settings → Option (List Config)
unfolding vehicle_id
fleet_from zero i settings = some []
fleet_from (suc k) i settings =
    with_config settings (vehicle_id (pos i)) (fleet_from k (suc i) settings)

unfoldable pub fleet : Settings → Option (List Config)
unfolding fleet_from
fleet settings = fleet_from (pos_part settings.fleet_size) 0 settings

-- The aggregator that `main` makes: registered, with the number of vehicles in its gauge, where
-- `set` is the gauge's Set.
unfoldable pub aggregator_of :
    {C R : Type 0}
    → Prometheus C
    → (must_register : List C → R → R) → (set : C → F64 → C) → Settings
    → R
    → Aggregator C × R
unfolding new_aggregator register
aggregator_of prometheus must_register set settings reg =
    let a = new_aggregator prometheus in
    (
      record a { active_vehicles = set a.active_vehicles (prometheus.float64 settings.fleet_size) },
      register prometheus must_register a reg,
    )

-- The size of the channel `statsCh`.
abbrev pub channel_size : Settings → ℕ
channel_size settings = pos_part (mul64 settings.fleet_size (pos 2))

-- The send of `Run` with its default: a channel that is full does not take the delta.
unfoldable pub offer : ℕ → Stats → List Stats → List Stats
offer size delta stats_ch = if ltb (length stats_ch) size then stats_ch ++ delta ∷ [] else stats_ch

-- The loop that reads the channel, once: it waits where the channel is empty.
unfoldable pub collect :
    {C : Type 0} → Prometheus C → List Stats × Aggregator C → List Stats × Aggregator C
collect prometheus ([], a) = ([], a)
collect prometheus (delta ∷ stats_ch, a) = (stats_ch, observe prometheus delta a)
