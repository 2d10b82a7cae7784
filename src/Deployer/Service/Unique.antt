-- ===== src/Deployer/Service/Unique.antt =====
-- The patterns of the deployer's mux against each other.
use distributed_ml_inference.Prelude.{String, List, some, true, ◌≡◌, ap, sym, ◌∙◌}
use distributed_ml_inference.Mux.{
  Values, Target, found, method_not_allowed, not_found, target, takes_method, parse, match_path,
}
use distributed_ml_inference.Mux.Matches.{match_path-Matches}
use distributed_ml_inference.Deployer.Service.{Endpoint, pattern_of, mux}
use distributed_ml_inference.Deployer.Service.Routes.{matches-Reaches, target-Reaches}

-- The handler and the values of a target.
abbrev taken : Target Endpoint → Endpoint × Values → Endpoint × Values
taken (found e values) other = (e, values)
taken method_not_allowed other = other
taken not_found other = other

module _ (method : String) (parts : List String) where
  -- The pattern of an endpoint takes the request, with these values of its wildcards.
  abbrev pub Takes : Endpoint → Values → Type 0
  Takes e values =
      (takes_method (parse (pattern_of e)).method method ≡ true)
      × (match_path (parse (pattern_of e)).path parts ≡ some values)

  targeted :
      (e : Endpoint) (values : Values) → Takes e values → target mux method parts ≡ found e values
  targeted e values (takes, matches) =
      (target-Reaches e method parts values).1
        (matches-Reaches method parts values e takes (match_path-Matches _ parts values matches))

  -- No two of the deployer's patterns take the same request, and one takes it with one reading of
  -- its path: the order in which `main` registers them, and which of them is more specific, makes no
  -- difference.
  pub Takes-unique :
      (e e' : Endpoint) (values values' : Values)
      → Takes e values
      → Takes e' values'
      → (e ≡ e') × (values ≡ values')
  Takes-unique e e' values values' h h' =
      let same : ◌≡◌ {A = Endpoint × Values} (e, values) (e', values') =
        ap (λ t. taken t (e, values)) (sym (targeted e values h) ∙ targeted e' values' h') in
      (ap (λ x. x.0) same, ap (λ x. x.1) same)
