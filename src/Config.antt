-- ===== src/Config.antt =====
-- shared/pkg/config/config.go, and shared/pkg/queue/factory.go which reads it. The environment is
-- what os.LookupEnv answers. strconv and time.ParseDuration: `atoi` and `parse_bool` are written
-- out, the grammar of durations is a parameter.
pub mod Ints
use Prim.Native.Char.{Char, code}
use distributed_ml_inference.Prelude.{
  ℕ, zero, suc, ◌+◌, ◌-◌, ◌*◌, ◌^◌, ℤ, pos, negsuc, leb, ltb, eqb, String, Bool, true, false, ◌&&◌,
  ◌||◌, Option, none, some, ◌==◌, if◌then◌else◌,
}
use distributed_ml_inference.Models.{Duration}

abbrev pub Environment : Type 0
Environment = String → Option String

abbrev pub is_digit : Char → Bool
is_digit c = leb 48 (code c) && leb (code c) 57

-- The number of decimal digits, read after the number `v`.
unfoldable pub digits_after : ℕ → String → Option ℕ
digits_after v String.[] = some v
digits_after v (String.◌∷◌ c s) =
    let rest = digits_after (v * 10 + (code c - 48)) s in if is_digit c then rest else none

unfoldable pub magnitude : String → Option ℕ
unfolding digits_after
magnitude s = if s == "" then none else digits_after 0 s

-- An int64 of this size, or the error of a value out of range.
abbrev pub positive : Option ℕ → Option ℤ
positive none = none
positive (some n) = if ltb n (2 ^ 63) then some (pos n) else none

abbrev pub negated : ℕ → ℤ
negated zero = pos 0
negated (suc n) = negsuc n

abbrev pub negative : Option ℕ → Option ℤ
negative none = none
negative (some n) = if leb n (2 ^ 63) then some (negated n) else none

-- strconv.Atoi, without the text of its errors
unfoldable pub atoi : String → Option ℤ
unfolding magnitude
atoi String.[] = none
atoi (String.◌∷◌ c s) =
    if eqb (code c) b'-'
    then negative (magnitude s)
    else if eqb (code c) b'+'
    then positive (magnitude s)
    else positive (magnitude (String.◌∷◌ c s))

-- strconv.ParseBool
unfoldable pub parse_bool : String → Option Bool
parse_bool s =
    if s == "1" || s == "t" || s == "T" || s == "true" || s == "TRUE" || s == "True"
    then some true
    else if s == "0" || s == "f" || s == "F" || s == "false" || s == "FALSE" || s == "False"
    then some false
    else none

abbrev pub or_default {ℓ} : {A : Type ℓ} → A → Option A → A
or_default def none = def
or_default def (some a) = a

-- The three functions below share this: a value that is set, not empty, and parses.
abbrev pub parsed {ℓ} : {A : Type ℓ} → (String → Option A) → A → Option String → A
parsed parse def none = def
parsed parse def (some v) = if v == "" then def else or_default def (parse v)

module _ (env : Environment) where
  unfoldable pub string : String → String → String
  string key def = elim (env key) [ none ↦ def | some v ↦ if v == "" then def else v ]

  unfoldable pub int : String → ℤ → ℤ
  unfolding atoi
  int key def = parsed atoi def (env key)

  unfoldable pub bool : String → Bool → Bool
  unfolding parse_bool
  bool key def = parsed parse_bool def (env key)

  unfoldable pub duration : (String → Option Duration) → String → Duration → Duration
  duration parse_duration key def = parsed parse_duration def (env key)

-- The backend that `FromEnv` builds, and the address that it gives to it.
pub data Backend : Type 0 where
  kafka : (brokers : String) → Backend
  memory : Backend
  redis : (addr : String) → Backend

unfoldable pub from_env : Environment → Backend
unfolding string
from_env env =
    let chosen = string env "QUEUE_BACKEND" "redis" in
    if chosen == "kafka"
    then kafka (string env "KAFKA_BROKERS" "localhost:9092")
    else if chosen == "memory"
    then memory
    else redis (string env "REDIS_ADDR" "localhost:6379")
