-- ===== src/Fleet/Vehicle.antt =====
-- services/fleet-simulator-go/internal/vehicle/vehicle.go. The generator of math/rand, the
-- arithmetic of float64, json.Marshal and the HTTP client are parameters; the client changes a
-- state `N` of the network. A vehicle's `Run` is one step for each tick of its ticker.
pub mod Hash
pub mod Ticks
use Prim.Native.Char.{code}
use Prim.Native.Nat.{bit_xor}
use distributed_ml_inference.Prelude.{
  ℕ, zero, suc, ◌+◌, ◌-◌, ◌%◌, ◌^◌, ℤ, pos, negsuc, pos_part, neg_part, eqb, leb, ltb_ℤ, add64,
  sub64, mul64, wrap64, trunc_div, String, text_append, Bool, true, false, ◌&&◌, Option, none, some,
  List, [], ◌∷◌, ◌++◌, ◌==◌, if◌then◌else◌,
}
use distributed_ml_inference.Models.{F64, Duration}
use distributed_ml_inference.Fleet.{Stats}

-- Config, without the HTTP client that all vehicles share
pub record Config : Type 0 where
  pub id : String
  pub gateway_url : String
  pub api_key : String
  pub telemetry_period : Duration
  pub infer_every : ℤ

pub record TelemetryFrame : Type 0 where
  pub vehicle_id : String
  pub speed : F64
  pub accel : F64
  pub steering_deg : F64
  pub lat : F64
  pub lon : F64

pub record InferRequest : Type 0 where
  pub vehicle_id : String
  pub model_name : String
  pub precision : String
  pub priority : String
  pub features : List F64

-- math/rand: a generator for a seed, and what a call answers and makes of the generator.
pub record Rand (R : Type 0) : Type 0 where
  pub new_rand : ℤ → R
  pub float64 : R → F64 × R
  pub norm_float64 : R → F64 × R
  pub int63n : ℤ → R → ℤ × R

pub record Floats : Type 0 where
  pub add : F64 → F64 → F64
  pub sub : F64 → F64 → F64
  pub mul : F64 → F64 → F64
  pub div : F64 → F64 → F64
  pub sin : F64 → F64
  pub of_int : ℤ → F64

pub record HttpRequest (B : Type 0) : Type 0 where
  pub method : String
  pub url : String
  pub headers : List (String × String)
  pub body : B

-- The error of http.NewRequestWithContext, if it has one, json.Marshal, and the client's Do: an
-- error, or the status of the response.
pub data Reply : Type 0 where
  failed : String → Reply
  answered : ℤ → Reply

pub record Http (B N : Type 0) : Type 0 where
  pub request_error : (method url : String) → Option String
  pub marshal : InferRequest → B
  pub send : HttpRequest B → N → Reply × N
  -- The text of fmt.Errorf("gateway returned %d", …)
  pub refusal : ℤ → String

-- The bits of an int64, as a number below 2^64.
abbrev pub bits64 : ℤ → ℕ
bits64 (pos n) = n
bits64 (negsuc n) = 2 ^ 64 - 1 - n

-- x ^ y, for an int64 and one from 0 up
abbrev pub xor64 : ℤ → ℕ → ℤ
xor64 a c = wrap64 (pos (bit_xor (bits64 a) c))

-- The loop of `hash`.
unfoldable pub hash_from : ℤ → String → ℤ
hash_from h String.[] = h
hash_from h (String.◌∷◌ c s) = hash_from (mul64 (xor64 h (code c)) (pos 1099511628211)) s

unfoldable pub hash : String → ℤ
unfolding hash_from
hash s =
    let h = hash_from (pos 1469598103934665603) s in if ltb_ℤ h (pos 0) then sub64 (pos 0) h else h

module _ {R : Type 0} (rand : Rand R) where
  -- Int63n panics for a bound that is not positive.
  unfoldable pub jitter : Duration → R → Option (Duration × R)
  unfolding trunc_div
  jitter base rng =
      let half = trunc_div base 2 in
      let drawn = rand.int63n half rng in
      if ltb_ℤ (pos 0) half then some (add64 half drawn.0, drawn.1) else none

module _ {B N : Type 0} (http : Http B N) where
  abbrev pub outcome : Reply → Option String
  outcome (failed e) = some e
  outcome (answered code) = if ltb_ℤ code (pos 300) then none else some (http.refusal code)

  -- The error of `sendInfer`, if it has one.
  unfoldable pub send_infer : Config → List F64 → N → Option String × N
  send_infer cfg features net =
      let url = text_append cfg.gateway_url "/v1/infer" in
      let request : HttpRequest B = record {
        method = "POST";
        url = url;
        headers =
            ("Content-Type", "application/json")
            ∷ (if cfg.api_key == "" then [] else ("X-API-Key", cfg.api_key) ∷ []);
        body = http.marshal (record {
          vehicle_id = cfg.id;
          model_name = "driving-event-classifier";
          precision = "fp32";
          priority = "normal";
          features = features;
        });
      } in
      elim (http.request_error "POST" url) [
        | some e ↦ (some e, net)
        | none ↦ let sent = http.send request net in (outcome sent.0, sent.1)
      ]

-- The variables of `Run`.
pub record Vehicle (R : Type 0) : Type 0 where
  pub rng : R
  pub lat : F64
  pub lon : F64
  pub tick : ℤ

-- `tick%cfg.InferEvery == 0`: the remainder has the sign of `tick`.
abbrev pub divides : ℤ → ℤ → Bool
divides every tick = eqb ((pos_part tick + neg_part tick) % (pos_part every + neg_part every)) 0

-- `cfg.InferEvery > 0 && tick%cfg.InferEvery == 0`
abbrev pub is_due : Config → ℤ → Bool
is_due cfg tick = ltb_ℤ (pos 0) cfg.infer_every && divides cfg.infer_every tick

abbrev pub delta_of : Option (Option String) → Stats
delta_of none = record { telemetry_ticks = pos 1; infer_ok = pos 0; infer_err = pos 0 }
delta_of (some none) = record { telemetry_ticks = pos 1; infer_ok = pos 1; infer_err = pos 0 }
delta_of (some (some e)) = record { telemetry_ticks = pos 1; infer_ok = pos 0; infer_err = pos 1 }

module _ {R B N : Type 0} (rand : Rand R) (floats : Floats) (http : Http B N) where
  -- `Run` before its loop: the vehicle and the period of its ticker.
  unfoldable pub start : Config → Option (Duration × Vehicle R)
  unfolding hash jitter
  start cfg =
      let a = rand.float64 (rand.new_rand (hash cfg.id)) in
      let b = rand.float64 a.1 in
      let lat = floats.add 0x4042b33333333333 (floats.mul a.0 0x3fe0000000000000) in
      let lon = floats.sub 0xc05e866666666666 (floats.mul b.0 0x3fe0000000000000) in
      elim (jitter rand cfg.telemetry_period b.1) [
        | none ↦ none
        | some (period, rng) ↦
            some (period, record { rng = rng; lat = lat; lon = lon; tick = pos 0 })
      ]

  -- One tick: the delta, and the frame that is made of the vehicle's values.
  unfoldable pub on_tick : Config → Vehicle R × N → (Stats × TelemetryFrame) × (Vehicle R × N)
  unfolding send_infer
  on_tick cfg (v, net) =
      let tick = add64 v.tick (pos 1) in
      let a = rand.norm_float64 v.rng in
      let b = rand.norm_float64 a.1 in
      let c = rand.norm_float64 b.1 in
      let d = rand.norm_float64 c.1 in
      let e = rand.norm_float64 d.1 in
      let wave = floats.sin (floats.div (floats.of_int tick) 0x4024000000000000) in
      let speed =
        floats.add (floats.add 0x4044000000000000 (floats.mul 0x403e000000000000 wave))
          (floats.mul a.0 0x4008000000000000) in
      let accel = floats.mul b.0 0x3ff8000000000000 in
      let steering = floats.mul c.0 0x4014000000000000 in
      let lat = floats.add v.lat (floats.mul d.0 0x3f40624dd2f1a9fc) in
      let lon = floats.add v.lon (floats.mul e.0 0x3f40624dd2f1a9fc) in
      let frame : TelemetryFrame = record {
        vehicle_id = cfg.id;
        speed = speed;
        accel = accel;
        steering_deg = steering;
        lat = lat;
        lon = lon;
      } in
      let f = rand.norm_float64 e.1 in
      let g = rand.norm_float64 f.1 in
      let features = speed ∷ accel ∷ steering ∷ f.0 ∷ g.0 ∷ [] in
      let sent = send_infer http cfg features net in
      if is_due cfg tick
      then (
        (delta_of (some sent.0), frame),
        (record { rng = g.1; lat = lat; lon = lon; tick = tick }, sent.1),
      )
      else ((delta_of none, frame), (record { rng = e.1; lat = lat; lon = lon; tick = tick }, net))

  -- So many ticks: the deltas, the first one first.
  unfoldable pub run : ℕ → Config → Vehicle R × N → List Stats × (Vehicle R × N)
  unfolding on_tick
  run zero cfg s = ([], s)
  run (suc k) cfg s =
      let once = on_tick cfg s in let rest = run k cfg once.1 in (once.0.0 ∷ rest.0, rest.1)
