-- ===== src/Mux/Probes.antt =====
-- The mux of the metrics servers, in services/router-go/cmd/router/main.go,
-- services/scheduler-go/cmd/scheduler/main.go and services/fleet-simulator-go/cmd/simulator/main.go:
-- /metrics and /healthz, for every method. The handler of /metrics and net/http's own answers are
-- parameters.
use distributed_ml_inference.Prelude.{ℕ, String, List, [], ◌∷◌, split_on, ◌≡◌, ◌↔◌, refl, sym}
use distributed_ml_inference.Metrics.{ResponseWriter}
use distributed_ml_inference.Mux.{
  Pattern, Values, Target, found, method_not_allowed, not_found, target, parse, segment,
  without_last, match_path, mux_of,
}
use distributed_ml_inference.Mux.Matches.{Matches, literals, target-Matches, of_mux}

pub data Endpoint : Type 0 where
  metrics healthz : Endpoint

abbrev pub pattern_of : Endpoint → String
pattern_of metrics = "/metrics"
pattern_of healthz = "/healthz"

abbrev pub endpoints : List Endpoint
endpoints = metrics ∷ healthz ∷ []

unfoldable pub mux : List (Pattern × Endpoint)
unfolding mux_of
mux = mux_of pattern_of endpoints

module _ {W : Type 0} (writer : ResponseWriter String W) (expose : W → W)
    (mux_error : ℕ → W → W) where
  -- The health check writes its status, then its body.
  abbrev pub answered : String → Target Endpoint → W → W
  answered body (found metrics _) w = expose w
  answered body (found healthz _) w = writer.write body (writer.write_header 200 w)
  answered body method_not_allowed w = mux_error 405 w
  answered body not_found w = mux_error 404 w

  -- What a metrics server does with a request, whose health check has this body.
  unfoldable pub serve : (body : String) → (method : String) → (parts : List String) → W → W
  unfolding mux target
  serve body method parts w = answered body (target mux method parts) w

-- The last segment of an endpoint's path.
abbrev path_of : Endpoint → String
path_of metrics = "metrics"
path_of healthz = "healthz"

-- A metrics server takes a request to a handler exactly where its path is that handler's, whatever
-- its method.
pub target-path :
    (e : Endpoint) (method : String) (parts : List String) (values : Values)
    → (target mux method parts ≡ found e values) ↔ ((parts ≡ path_of e ∷ []) × (values ≡ []))
unfolding mux mux_of parse segment without_last split_on target match_path
target-path e method parts values = (
  (λ is.
      let (pattern, elem, _, matches) = target-Matches mux method parts e values is in
      let same_pattern = of_mux pattern_of pattern e endpoints elem in
      of_path e (rw (sym same_pattern) matches)),
  (λ (path, taken). rw (path, taken) (at e)),
)
  where
    of_path :
        (e : Endpoint)
        → Matches (parse (pattern_of e)).path parts values
        → (parts ≡ path_of e ∷ []) × (values ≡ [])
    of_path metrics m = literals ("metrics" ∷ []) parts values m
    of_path healthz m = literals ("healthz" ∷ []) parts values m

    at : (e : Endpoint) → target mux method (path_of e ∷ []) ≡ found e []
    at metrics = refl
    at healthz = refl
