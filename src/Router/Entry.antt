-- ===== src/Router/Entry.antt =====
-- services/router-go/cmd/router/main.go: what the environment configures, and what its health check
-- writes.
pub mod Process
use distributed_ml_inference.Prelude.{
  ℕ, zero, suc, ◌/◌, ◌%◌, ◌^◌, ◌<◌, ℤ, pos, pos_part, eqb, eqb_ℤ, String, text_append, Option, none,
  some, ◌≡◌, refl, ap, ◌∙◌, if◌then◌else◌, arith,
}
use distributed_ml_inference.Models.{Time, Duration}
use distributed_ml_inference.Config.{Environment, string, duration}
use distributed_ml_inference.Queue.Itoa.{digit, itoa-IsDecimal, IsDecimal}
use distributed_ml_inference.Fleet.Simulator
use distributed_ml_inference.Fleet.Simulator.Ids.{itoa-queue_itoa}
use distributed_ml_inference.Router.Registry.{Registry, new_registry, count}

pub record Settings : Type 0 where
  pub grpc_addr : String
  pub metrics_addr : String
  pub registry : Registry
  pub call_timeout : Duration

-- What `main` reads from the environment, where `parse_duration` is time.ParseDuration.
unfoldable pub settings_of : (String → Option Duration) → Environment → Settings
unfolding new_registry
settings_of parse_duration env = record {
  grpc_addr = string env "ROUTER_GRPC_ADDR" ":9090";
  metrics_addr = string env "ROUTER_METRICS_ADDR" ":9091";
  registry = new_registry (duration env parse_duration "WORKER_STALE_AFTER" (pos 30000000000));
  call_timeout = duration env parse_duration "WORKER_CALL_TIMEOUT" (pos 5000000000);
}

-- The loop of `itoa`, which puts each digit before the others; `none` is fuel that was not enough.
unfoldable pub prepend_digits : ℕ → ℕ → String → Option String
unfolding digit
prepend_digits zero n digits = if eqb n 0 then some digits else none
prepend_digits (suc fuel) n digits =
    let rest = prepend_digits fuel (n / 10) (String.◌∷◌ (digit (n % 10)) digits) in
    if eqb n 0 then some digits else rest

-- The loop does not run for a number below 0.
unfoldable pub itoa : ℤ → Option String
unfolding prepend_digits
itoa n = if eqb_ℤ n (pos 0) then some "0" else prepend_digits 20 (pos_part n) ""

abbrev pub health_body_of : Option String → Option String
health_body_of none = none
health_body_of (some n) =
    some (text_append "{\"status\":\"ok\",\"active_workers\":" (text_append n "}"))

-- The body that the health check writes, with the number of live workers.
unfoldable pub health_body : Time → Registry → Option String
unfolding itoa
health_body now r = health_body_of (itoa (pos (count now r)))

prepend_digits-simulator :
    (fuel n : ℕ) (text : String) → prepend_digits fuel n text ≡ Simulator.prepend_digits fuel n text
unfolding prepend_digits Simulator.prepend_digits
prepend_digits-simulator zero n text = refl
prepend_digits-simulator (suc fuel) n text =
    ap (λ rest. if eqb n 0 then some text else rest)
      (prepend_digits-simulator fuel (n / 10) (String.◌∷◌ (digit (n % 10)) text))

-- The health check writes the number of live workers in decimal form, where it is an int64.
pub health_body-IsDecimal :
    (now : Time) (r : Registry)
    → count now r < 2 ^ 63
    → (n : String) × (health_body now r
        ≡ some (text_append "{\"status\":\"ok\",\"active_workers\":" (text_append n "}")))
      × IsDecimal n (pos (count now r))
unfolding health_body itoa Simulator.itoa
health_body-IsDecimal now r h =
    let (s, written, reads) = itoa-IsDecimal (pos (count now r)) (h, omega arith) (omega arith) in
    let loop = prepend_digits-simulator 20 (count now r) "" in
    let same : itoa (pos (count now r)) ≡ Simulator.itoa (pos (count now r)) =
      ap (λ rest. if eqb_ℤ (pos (count now r)) (pos 0) then some "0" else rest) loop in
    (s, ap health_body_of (same ∙ itoa-queue_itoa (count now r) h ∙ written), reads)
