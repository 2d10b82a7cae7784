-- ===== src/Fleet/Simulator/Process.antt =====
-- services/fleet-simulator-go/cmd/simulator/main.go: `main` as a process. Nothing of its start can
-- fail; that the vehicles of the fleet have names is shown in Fleet/Simulator/Ids.
use distributed_ml_inference.Prelude.{
  ℕ, ◌<◌, ◌^◌, ℤ, pos, ltb_ℤ, trunc_div, mul64, not, ◌&&◌, ◌≤◌, wrap64, ◌*ℤ◌, if◌then◌else◌, arith,
  String, Bool, true, false, Option, none, some, List, [], ◌∷◌, ◌++◌, length, map, ◌≡◌, ap, sym,
  ◌∙◌,
}
use mathlib.Core.List.{append-nil, append_assoc}
use distributed_ml_inference.Models.{Duration}
use distributed_ml_inference.Config.{Environment}
use distributed_ml_inference.Logging.{info}
use distributed_ml_inference.Process.{
  HttpServer, Resource, Frame, Program, Event, signals, acquired, released, started, waited, pure,
  emit, log, defer_release, wait, returned, finish, execute, ◌>>◌,
}
use distributed_ml_inference.Process.Orderly.{
  starting, serving, Orderly, starts, starts_more, acquires, Life, serves, completes, orderly,
}
use distributed_ml_inference.Fleet.Vehicle.{Config}
use distributed_ml_inference.Fleet.Simulator.{Settings, settings_of, fleet}
use distributed_ml_inference.Fleet.Simulator.Ids.{Distinct, fleet-Distinct}

-- The goroutines of the simulator: a vehicle's Run, the loop that reads the channel of the
-- vehicles' deltas, and the HTTP server of the metrics.
pub data Task : Type 0 where
  vehicle : Config → Task
  collector : Task
  http : HttpServer → Task

-- The loop that starts the vehicles.
unfoldable pub start_all : List Config → Program Task Unit
start_all [] = pure tt
start_all (cfg ∷ cfgs) = do emit (started (vehicle cfg)); start_all cfgs

-- What follows the goroutines; wg.Wait() returns, as Run returns once the context is done.
abbrev run : Bool → Settings → Program Task Unit
run signal settings = do
  emit (
      started (
        http (record {
          addr = settings.addr;
          announced = "fleet simulator running";
          failure = "metrics server stopped";
        })))
  wait signal
  log info "shutting down fleet simulator"
  emit waited

-- What follows the loop that starts the vehicles.
abbrev collecting : Bool → Settings → Program Task Unit
collecting signal settings = do emit (started collector); run signal settings

abbrev pub simulate : Bool → Settings → List Config → Program Task Unit
simulate signal settings vehicles = do
  emit (acquired signals)
  defer_release signals
  start_all vehicles
  collecting signal settings

abbrev ready : Bool → Settings → Option (List Config) → Option (Program Task Unit)
ready signal settings none = none
ready signal settings (some vehicles) = some (simulate signal settings vehicles)

-- A vehicle's goroutine panics in `jitter`, which ends the process: Int63n is given the half of the
-- period, which must be above 0.
abbrev panics : Settings → Bool
panics settings =
    ltb_ℤ (pos 0) settings.fleet_size && not (ltb_ℤ (pos 0) (trunc_div settings.telemetry_period 2))

-- `signal` tells whether a signal ever comes; `none` is a panic, of a channel with a size below 0 or
-- of a vehicle, or a name whose loop had too little fuel. The memory is taken to be enough for the
-- channel.
unfoldable pub main :
    (signal : Bool) → (String → Option Duration) → Environment → Option (Program Task Unit)
unfolding settings_of start_all trunc_div
main signal parse_duration env =
    let settings = settings_of parse_duration env in
    if ltb_ℤ (mul64 settings.fleet_size (pos 2)) (pos 0)
    then none
    else if panics settings
    then none
    else ready signal settings (fleet settings)

abbrev starting_of : List Config → List (Event Task)
starting_of cfgs = map (λ cfg. started (vehicle cfg)) cfgs

start_all-started :
    (cfgs : List Config) (f : Frame Task)
    → start_all cfgs f ≡ (returned tt, record f { trace = f.trace ++ starting_of cfgs })
unfolding start_all
start_all-started [] f = ap (λ t. (returned tt, record f { trace = t })) (sym (append-nil f.trace))
start_all-started (cfg ∷ cfgs) f =
    start_all-started cfgs (record f { trace = f.trace ++ started (vehicle cfg) ∷ [] })
    ∙ ap (λ t. (returned tt, record f { trace = t }))
        (append_assoc f.trace (started (vehicle cfg) ∷ []) (starting_of cfgs))

serving-Orderly :
    {rs : List Resource} (cfgs : List Config) {es : List (Event Task)}
    → Orderly serving rs es
    → Orderly serving rs (starting_of cfgs ++ es)
serving-Orderly [] h = h
serving-Orderly (cfg ∷ cfgs) h = starts_more (vehicle cfg) (serving-Orderly cfgs h)

starting-Orderly :
    {rs : List Resource} (cfgs : List Config) (t : Task) {es : List (Event Task)}
    → Orderly serving rs es
    → Orderly starting rs (starting_of cfgs ++ started t ∷ es)
starting-Orderly [] t h = starts t h
starting-Orderly (cfg ∷ cfgs) t h = starts (vehicle cfg) (serving-Orderly cfgs (starts_more t h))

-- What the loop leaves to the rest of `main`.
abbrev begun : List (Event Task) → Frame Task
begun events = record { trace = acquired signals ∷ events; deferred = released signals ∷ [] }

run-Life :
    (signal : Bool) (settings : Settings) (cfgs : List Config)
    → Life
        (signals ∷ [])
        none
        signal
        (finish (collecting signal settings (begun (starting_of cfgs))))
run-Life true settings cfgs = completes (
    acquires signals
      (simp (append_assoc) (starting-Orderly cfgs collector (search orderly depth 30))))
run-Life false settings cfgs = serves

simulate-Life :
    (signal : Bool) (settings : Settings) (cfgs : List Config)
    → Life (signals ∷ []) none signal (execute (simulate signal settings cfgs))
simulate-Life signal settings cfgs =
    let ran : execute (simulate signal settings cfgs)
        ≡ finish (collecting signal settings (begun (starting_of cfgs))) =
      ap (λ r. finish (((λ _. r) >> collecting signal settings) (begun [])))
        (start_all-started cfgs (begun [])) in
    rw ran (run-Life signal settings cfgs)

-- The channel's size is no int64 below 0.
has_room :
    (n : ℕ) (size : ℤ) → size ≡ pos n → n < 2 ^ 62 → ltb_ℤ (mul64 size (pos 2)) (pos 0) ≡ false
unfolding wrap64 ◌*ℤ◌
has_room n size h bound = rw h (ground arith)

no_panic :
    (settings : Settings) (period : ℕ)
    → settings.telemetry_period ≡ pos period
    → 2 ≤ period
    → panics settings ≡ false
unfolding trunc_div
no_panic settings period is long = rw is (ground arith)

pub main-Distinct :
    (signal : Bool) (parse_duration : String → Option Duration) (env : Environment) (n period : ℕ)
    → (settings_of parse_duration env).fleet_size ≡ pos n
    → n < 2 ^ 40
    → (settings_of parse_duration env).telemetry_period ≡ pos period
    → 2 ≤ period
    → (cfgs : List Config) × (length cfgs ≡ n)
      × Distinct cfgs
      × (main signal parse_duration env
          ≡ some (simulate signal (settings_of parse_duration env) cfgs))
      × Life
          (signals ∷ [])
          none
          signal
          (execute (simulate signal (settings_of parse_duration env) cfgs))
unfolding main
main-Distinct signal parse_duration env n period size h is long =
    let settings = settings_of parse_duration env in
    let (cfgs, made, count, distinct) = fleet-Distinct settings n size (omega arith) in
    (
      cfgs,
      count,
      distinct,
      rw (has_room n settings.fleet_size size (omega arith))
          (rw (no_panic settings period is long) (ap (ready signal settings) made)),
      simulate-Life signal settings cfgs,
    )
