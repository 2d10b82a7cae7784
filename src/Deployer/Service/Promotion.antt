-- ===== src/Deployer/Service/Promotion.antt =====
-- A deployment over HTTP, and what the server answers after it; and which requests change tables.
use distributed_ml_inference.Prelude.{
  ℕ, String, ◌||◌, ◌==◌, Bool-cases, none, List, [], ◌∷◌, ◌≡◌, ◌⊎◌, inl, inr, refl, ap, ◌∙◌, arith,
}
use distributed_ml_inference.Models.{ModelVersion}
use distributed_ml_inference.Metrics.{Prometheus, Set, ResponseWriter, middleware, status_recorder}
use distributed_ml_inference.Mux.{
  Values, Target, found, method_not_allowed, not_found, target, path_value,
}
use distributed_ml_inference.Deployer.Registry.{
  Db, Result, ok, err, Error, not_found as missing, failure, deploy,
}
use distributed_ml_inference.Deployer.Registry
use distributed_ml_inference.Deployer.Registry.Promoted.{IsServing, production-deploy}
use distributed_ml_inference.Deployer.Handler.{
  Host, Decoded, DeployRequest, Body, model, failed, respond, write_json, handle_deploy,
  handle_production,
}
use distributed_ml_inference.Deployer.Entry.{route, write_response}
use distributed_ml_inference.Deployer.Service.{
  Endpoint, register, list, production, deploy as deploys_to, rollback, traffic, healthz, metrics,
  mux, Request, handler, answered, serve,
}
use distributed_ml_inference.Deployer.Service.Routes.{
  Reaches, deploys, asks_production, target-Reaches,
}
use distributed_ml_inference.Mux.Matches.{get}

-- A deployment whose response has the status 200 succeeded.
deployed_of_200 :
    (host : Host) (name : String) (d : Decoded DeployRequest) (db : Db)
    → (handle_deploy host name d db).0.status ≡ 200
    → ((deploy host.faults host.now name d.value.version d.value.reason db).0 ≡ ok tt)
      × ((handle_deploy host name d db).1
          ≡ (deploy host.faults host.now name d.value.version d.value.reason db).1)
unfolding handle_deploy
deployed_of_200 host name d db h = elim (Bool-cases (failed d || d.value.version == "")) [
  | inl t ↦ let clash = rw t at h in absurd (omega arith)
  | inr f ↦
      let h' = rw f at h in
      (
        succeeded (deploy host.faults host.now name d.value.version d.value.reason db).0 h',
        rw f refl,
      )
]
  where
    succeeded :
        (r : Result {0} Unit)
        → (respond (λ _. write_json 200 (Body.deployed d.value.version)) r).status ≡ 200
        → r ≡ ok tt
    succeeded (ok _) e = refl
    succeeded (err missing) e = absurd (omega arith)
    succeeded (err (failure t)) e = absurd (omega arith)

-- The endpoints whose handlers write.
abbrev pub Writes : Endpoint → Type 0
Writes register = Unit
Writes deploys_to = Unit
Writes rollback = Unit
Writes traffic = Unit
Writes _ = ⊥

module _ {C H G W : Type 0} (prometheus : Prometheus C H G) (writer : ResponseWriter Body W)
    (expose : Set C H G → W → W) (mux_error : ℕ → W → W)
    (newest_first : List ModelVersion → List ModelVersion) where
  abbrev served : Host → Request → W → Set C H G × Db → W × (Set C H G × Db)
  served = serve prometheus writer expose mux_error newest_first

  served_deploy :
      (host : Host) (r : Request) (w : W) (set : Set C H G) (db : Db) (name : String)
      → r.method ≡ "POST"
      → r.parts ≡ "v1" ∷ "models" ∷ name ∷ "deploy" ∷ []
      → (served host r w (set, db)).1.1 ≡ (handle_deploy host name r.deploys db).1
  unfolding serve handler path_value route middleware
  served_deploy host r w set db name is_post is_deploy =
      let reached : target mux r.method r.parts ≡ found deploys_to (("name", name) ∷ []) =
        (target-Reaches deploys_to r.method r.parts _).1 (rw (is_post, is_deploy) (deploys name)) in
      ap (λ t. (answered prometheus writer expose mux_error newest_first host r t w (set, db)).1.1)
        reached

  served_production :
      (host : Host) (r : Request) (w : W) (set : Set C H G) (db : Db) (name : String)
      → r.method ≡ "GET"
      → r.parts ≡ "v1" ∷ "models" ∷ name ∷ "production" ∷ []
      → (served host r w (set, db)).0 ≡ write_response writer (handle_production host name db) w
  unfolding serve handler path_value route middleware status_recorder
  served_production host r w set db name is_get is_production =
      let reached : target mux r.method r.parts ≡ found production (("name", name) ∷ []) =
        (target-Reaches production r.method r.parts _).1
          (rw (is_get, is_production) (asks_production name get)) in
      ap (λ t. (answered prometheus writer expose mux_error newest_first host r t w (set, db)).0)
        reached

  -- Where a POST to /v1/models/{name}/deploy gets a response of status 200, a GET of
  -- /v1/models/{name}/production after it, with no other request between and a database without
  -- errors, is answered with the row of that model and of the version that the deployment asked
  -- for, which is in production and has all of the traffic.
  pub deploy-production :
      (host later : Host) (r r' : Request) (w w' : W) (set set' : Set C H G) (db : Db)
      (name : String)
      → r.method ≡ "POST"
      → r.parts ≡ "v1" ∷ "models" ∷ name ∷ "deploy" ∷ []
      → r'.method ≡ "GET"
      → r'.parts ≡ "v1" ∷ "models" ∷ name ∷ "production" ∷ []
      → later.faults ≡ (λ _. none)
      → (handle_deploy host name r.deploys db).0.status ≡ 200
      → (row : ModelVersion) × IsServing name r.deploys.value.version row
        × ((served later r' w' (set', (served host r w (set, db)).1.1)).0
            ≡ write_response writer (write_json 200 (model row)) w')
  unfolding handle_production
  deploy-production host later r r' w w' set set' db name is_post is_deploy is_get is_production
        faultless h =
      let (succeeded, tables) = deployed_of_200 host name r.deploys db h in
      let (row, reads, serving) =
        production-deploy host.faults host.now name r.deploys.value.version r.deploys.value.reason
          db succeeded in
      let after = served_deploy host r w set db name is_post is_deploy ∙ tables in
      let asked : (handle_production later name (served host r w (set, db)).1.1)
          ≡ write_json 200 (model row) =
        ap (handle_production later name) after
        ∙ ap
            (λ faults.
              respond (λ row. write_json 200 (model row))
                (Registry.production faults name
                  (deploy host.faults host.now name r.deploys.value.version r.deploys.value.reason
                    db).1))
            faultless
        ∙ ap (respond (λ row. write_json 200 (model row))) reads in
      (
        row,
        serving,
        served_production later r' w' set' (served host r w (set, db)).1.1 name is_get is_production
            ∙ ap (λ response. write_response writer response w') asked,
      )

  -- A request that is not a POST to one of the four paths that write leaves the tables as they are.
  pub served-Writes :
      (host : Host) (r : Request) (w : W) (set : Set C H G) (db : Db)
      → ((served host r w (set, db)).1.1 ≡ db)
        ⊎ ((e : Endpoint) × (values : Values) × Writes e × Reaches e values r.method r.parts)
  unfolding serve handler route middleware
  served-Writes host r w set db = by_target (target mux r.method r.parts) refl
    where
      by_target :
          (t : Target Endpoint)
          → target mux r.method r.parts ≡ t
          → ((answered prometheus writer expose mux_error newest_first host r t w (set, db)).1.1
              ≡ db)
            ⊎ ((e : Endpoint) × (values : Values) × Writes e × Reaches e values r.method r.parts)
      by_target (found register values) is =
          inr (register, values, tt, (target-Reaches register r.method r.parts values).0 is)
      by_target (found deploys_to values) is =
          inr (deploys_to, values, tt, (target-Reaches deploys_to r.method r.parts values).0 is)
      by_target (found rollback values) is =
          inr (rollback, values, tt, (target-Reaches rollback r.method r.parts values).0 is)
      by_target (found traffic values) is =
          inr (traffic, values, tt, (target-Reaches traffic r.method r.parts values).0 is)
      by_target (found list values) is = inl refl
      by_target (found production values) is = inl refl
      by_target (found healthz values) is = inl refl
      by_target (found metrics values) is = inl refl
      by_target method_not_allowed is = inl refl
      by_target not_found is = inl refl
