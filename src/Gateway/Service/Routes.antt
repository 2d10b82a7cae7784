-- ===== src/Gateway/Service/Routes.antt =====
-- Which requests the gateway's mux takes to which handler.
use distributed_ml_inference.Prelude.{
  String, true, List, [], ◌∷◌, sym, ap, ◌∙◌, ◌↔◌, split_on, ◌≡◌, refl,
}
use distributed_ml_inference.Mux.{
  Values, found, target, takes_method, parse, segment, without_last, match_path, mux_of,
}
use distributed_ml_inference.Mux.Matches.{
  Matches, Reads, get, head, reads, posts, literals, target-Matches, of_mux,
}
use distributed_ml_inference.Gateway.Service.{
  Endpoint, infer, jobs, healthz, metrics, pattern_of, endpoints, mux,
}

-- The requests of each handler, by method and path.
pub data Reaches : Endpoint → Values → String → List String → Type 0 where
  infers : Reaches infer [] "POST" ("v1" ∷ "infer" ∷ [])
  submits : Reaches jobs [] "POST" ("v1" ∷ "jobs" ∷ [])
  checks_health : {method : String} → Reads method → Reaches healthz [] method ("healthz" ∷ [])
  reads_metrics : {method : String} → Reads method → Reaches metrics [] method ("metrics" ∷ [])

matches-Reaches :
    (method : String) (parts : List String) (values : Values) (e : Endpoint)
    → takes_method (parse (pattern_of e)).method method ≡ true
    → Matches (parse (pattern_of e)).path parts values
    → Reaches e values method parts
unfolding parse segment without_last split_on
matches-Reaches method parts values infer h m =
    let (is, none_taken) = literals ("v1" ∷ "infer" ∷ []) parts values m in
    rw (is, none_taken, posts method h) infers
matches-Reaches method parts values jobs h m =
    let (is, none_taken) = literals ("v1" ∷ "jobs" ∷ []) parts values m in
    rw (is, none_taken, posts method h) submits
matches-Reaches method parts values healthz h m =
    let (is, none_taken) = literals ("healthz" ∷ []) parts values m in
    rw (is, none_taken) (checks_health (reads method h))
matches-Reaches method parts values metrics h m =
    let (is, none_taken) = literals ("metrics" ∷ []) parts values m in
    rw (is, none_taken) (reads_metrics (reads method h))

reaches-target :
    (e : Endpoint) (method : String) (parts : List String) (values : Values)
    → Reaches e values method parts
    → target mux method parts ≡ found e values
unfolding target mux mux_of parse segment without_last match_path split_on
reaches-target _ _ _ _ infers = refl
reaches-target _ _ _ _ submits = refl
reaches-target _ _ _ _ (checks_health get) = refl
reaches-target _ _ _ _ (checks_health head) = refl
reaches-target _ _ _ _ (reads_metrics get) = refl
reaches-target _ _ _ _ (reads_metrics head) = refl

-- The gateway's mux takes a request to a handler exactly where its method and path are of that
-- handler's requests.
pub target-Reaches :
    (e : Endpoint) (method : String) (parts : List String) (values : Values)
    → (target mux method parts ≡ found e values) ↔ Reaches e values method parts
unfolding mux mux_of
target-Reaches e method parts values = (
  (λ is.
      let (pattern, elem, takes, matches) = target-Matches mux method parts e values is in
      let same_pattern = of_mux pattern_of pattern e endpoints elem in
      matches-Reaches method parts values e
        (ap (λ p. takes_method p.method method) (sym same_pattern) ∙ takes)
        (rw (sym same_pattern) matches)),
  reaches-target e method parts values,
)
