-- ===== src/Deployer/Service/Routes.antt =====
-- Which requests the deployer's mux takes to which handler.
use distributed_ml_inference.Prelude.{
  String, Bool, true, false, List, [], ◌∷◌, sym, ap, ◌∙◌, ◌↔◌, split_on, ◌≡◌, refl, if◌then◌else◌,
}
use distributed_ml_inference.Mux.{
  literal, wildcard, Values, found, target, takes_method, parse, segment, without_last, match_path,
  mux_of,
}
use distributed_ml_inference.Mux.Matches.{
  Matches, ended, same, any, Reads, get, head, reads, posts, literals, target-Matches, of_mux,
}
use distributed_ml_inference.Deployer.Service.{
  Endpoint, register, list, production, deploy, rollback, traffic, healthz, metrics, pattern_of,
  endpoints, mux,
}

-- The requests of each handler, by method and path, with the name of a model that it gets.
pub data Reaches : Endpoint → Values → String → List String → Type 0 where
  registers : Reaches register [] "POST" ("v1" ∷ "models" ∷ "register" ∷ [])
  lists :
      {method : String} (name : String)
      → Reads method
      → Reaches list (("name", name) ∷ []) method ("v1" ∷ "models" ∷ name ∷ "versions" ∷ [])
  asks_production :
      {method : String} (name : String)
      → Reads method
      → Reaches production (("name", name) ∷ []) method ("v1" ∷ "models" ∷ name ∷ "production" ∷ [])
  deploys :
      (name : String)
      → Reaches deploy (("name", name) ∷ []) "POST" ("v1" ∷ "models" ∷ name ∷ "deploy" ∷ [])
  rolls_back :
      (name : String)
      → Reaches rollback (("name", name) ∷ []) "POST" ("v1" ∷ "models" ∷ name ∷ "rollback" ∷ [])
  splits :
      (name : String)
      → Reaches traffic (("name", name) ∷ []) "POST" ("v1" ∷ "models" ∷ name ∷ "traffic" ∷ [])
  checks_health : {method : String} → Reads method → Reaches healthz [] method ("healthz" ∷ [])
  reads_metrics : {method : String} → Reads method → Reaches metrics [] method ("metrics" ∷ [])

-- What holds of each path of a model's resource, with its name as the value.
resource :
    (Q : List String → Values → Type 0) (a b name c : String) (parts : List String)
    (values : Values)
    → ((part : String) → Q (a ∷ b ∷ part ∷ c ∷ []) ((name, part) ∷ []))
    → Matches (literal a ∷ literal b ∷ wildcard name ∷ literal c ∷ []) parts values
    → Q parts values
resource Q a b name c _ _ holds (same _ (same _ (any _ part (same _ ended)))) = holds part

module _ (method : String) (parts : List String) (values : Values) where
  -- A request that the pattern of an endpoint takes is one of those.
  pub matches-Reaches :
      (e : Endpoint)
      → takes_method (parse (pattern_of e)).method method ≡ true
      → Matches (parse (pattern_of e)).path parts values
      → Reaches e values method parts
  unfolding parse segment without_last split_on
  matches-Reaches register h m =
      let (is, none_taken) = literals ("v1" ∷ "models" ∷ "register" ∷ []) parts values m in
      rw (is, none_taken, posts method h) registers
  matches-Reaches list h m =
      resource (λ ps vs. Reaches list vs method ps) "v1" "models" "name" "versions" parts values
        (λ name. lists name (reads method h)) m
  matches-Reaches production h m =
      resource (λ ps vs. Reaches production vs method ps) "v1" "models" "name" "production" parts
        values (λ name. asks_production name (reads method h)) m
  matches-Reaches deploy h m =
      resource (λ ps vs. Reaches deploy vs method ps) "v1" "models" "name" "deploy" parts values
        (λ name. rw (posts method h) (deploys name)) m
  matches-Reaches rollback h m =
      resource (λ ps vs. Reaches rollback vs method ps) "v1" "models" "name" "rollback" parts values
        (λ name. rw (posts method h) (rolls_back name)) m
  matches-Reaches traffic h m =
      resource (λ ps vs. Reaches traffic vs method ps) "v1" "models" "name" "traffic" parts values
        (λ name. rw (posts method h) (splits name)) m
  matches-Reaches healthz h m =
      let (is, none_taken) = literals ("healthz" ∷ []) parts values m in
      rw (is, none_taken) (checks_health (reads method h))
  matches-Reaches metrics h m =
      let (is, none_taken) = literals ("metrics" ∷ []) parts values m in
      rw (is, none_taken) (reads_metrics (reads method h))

-- A test whose branches agree: of the name of a model, which may be "register".
no_matter {ℓ} : {A : Type ℓ} (b : Bool) (a : A) → (if b then a else a) ≡ a
no_matter true a = refl
no_matter false a = refl

reaches-target :
    (e : Endpoint) (method : String) (parts : List String) (values : Values)
    → Reaches e values method parts
    → target mux method parts ≡ found e values
unfolding target mux mux_of parse segment without_last match_path split_on
reaches-target _ _ _ _ registers = refl
reaches-target _ _ _ _ (lists name get) = rw no_matter refl
reaches-target _ _ _ _ (lists name head) = rw no_matter refl
reaches-target _ _ _ _ (asks_production name get) = rw no_matter refl
reaches-target _ _ _ _ (asks_production name head) = rw no_matter refl
reaches-target _ _ _ _ (deploys name) = rw no_matter refl
reaches-target _ _ _ _ (rolls_back name) = rw no_matter refl
reaches-target _ _ _ _ (splits name) = rw no_matter refl
reaches-target _ _ _ _ (checks_health get) = refl
reaches-target _ _ _ _ (checks_health head) = refl
reaches-target _ _ _ _ (reads_metrics get) = refl
reaches-target _ _ _ _ (reads_metrics head) = refl

-- The deployer's mux takes a request to a handler exactly where its method and path are of that
-- handler's requests; the handler gets the name of the model from the path, whatever that name is.
pub target-Reaches :
    (e : Endpoint) (method : String) (parts : List String) (values : Values)
    → (target mux method parts ≡ found e values) ↔ Reaches e values method parts
unfolding mux mux_of
target-Reaches e method parts values = (
  (λ is.
      let (pattern, elem, takes, matches) = target-Matches mux method parts e values is in
      let same_pattern = of_mux pattern_of pattern e endpoints elem in
      matches-Reaches method parts values e
        (ap (λ p. takes_method p.method method) (sym same_pattern) ∙ takes)
        (rw (sym same_pattern) matches)),
  reaches-target e method parts values,
)
