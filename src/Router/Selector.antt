-- ===== src/Router/Selector.antt =====
-- services/router-go/internal/routing/selector.go: which worker serves a request. The scores are
-- float64 values that are whole numbers: `round` is what the machine's float64 arithmetic does to
-- an exact whole result, and `max_float64` is math.MaxFloat64.
pub mod Eligible
pub mod Best
pub mod Rounding
use distributed_ml_inference.Prelude.{
  ℕ, ℤ, pos, ◌-◌, ◌*◌, ◌^◌, String, Bool, true, false, not, ◌&&◌, List, [], ◌∷◌, ◌+ℤ◌, ◌-ℤ◌, ◌*ℤ◌,
  ltb, eqb_ℤ, ltb_ℤ, ◌==◌, length, keep, if◌then◌else◌,
}
use distributed_ml_inference.Models.{
  Precision, Priority, priority_critical, precision_int4, precision_int8, precision_fp16,
  precision_fp32,
}
use distributed_ml_inference.Router.Registry.{Worker}

-- The map `precisionRank`; a missing key reads as 0.
unfoldable pub precision_rank : Precision → ℕ
precision_rank p =
    if p == precision_int4
    then 0
    else if p == precision_int8
    then 1
    else if p == precision_fp16
    then 2
    else if p == precision_fp32
    then 3
    else 0

-- The loop of `supportsModel`.
unfoldable pub supports : List String → String → Bool
supports [] model_name = false
supports (m ∷ ms) model_name = if m == model_name then true else supports ms model_name

unfoldable pub supports_model : Worker → String → Bool
unfolding supports
supports_model w model_name = supports w.supported_models model_name

-- The two `continue`s of the first loop, turned around.
unfoldable pub is_eligible : String → Precision → Worker → Bool
unfolding supports_model precision_rank
is_eligible model_name preferred w =
    if not (supports_model w model_name)
    then false
    else if not (preferred == "") && ltb (precision_rank w.max_precision) (precision_rank preferred)
    then false
    else true

unfoldable pub eligible : String → Precision → List Worker → List Worker
unfolding is_eligible keep
eligible model_name preferred = keep (is_eligible model_name preferred)

pub data Selection : Type 0 where
  selected : Worker → Selection
  no_eligible : String → Precision → (live_workers : ℕ) → Selection

-- (2^53 - 1) * 2^971
unfoldable pub max_float64 : ℤ
max_float64 = pos ((2 ^ 53 - 1) * 2 ^ 971)

module _ (round : ℤ → ℤ) where
  -- float64(latency) + float64(inFlight)*15.0, less 25.0 for a GPU at critical priority
  unfoldable pub score : Priority → Worker → ℤ
  score priority w =
      let base = round (round w.last_latency_ms +ℤ round (round w.in_flight *ℤ pos 15)) in
      if eqb_ℤ priority priority_critical && w.gpu_available then round (base -ℤ pos 25) else base

  -- The second loop, over the worker kept so far and its score.
  unfoldable pub pick : Priority → Worker → ℤ → List Worker → Worker
  pick priority best best_score [] = best
  pick priority best best_score (w ∷ ws) =
      let better = ltb_ℤ (score priority w) best_score in
      pick priority (if better then w else best) (if better then score priority w else best_score)
        ws

  -- best := eligible[0], once there is one
  unfoldable pub choose : Priority → Selection → List Worker → Selection
  unfolding pick
  choose priority failure [] = failure
  choose priority failure (w ∷ ws) = selected (pick priority w max_float64 (w ∷ ws))

  unfoldable pub select : List Worker → String → Precision → Priority → Selection
  unfolding choose eligible
  select workers model_name preferred priority =
      choose priority (no_eligible model_name preferred (length workers))
        (eligible model_name preferred workers)
