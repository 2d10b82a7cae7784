-- ===== src/Deployer/Handler/Requests.antt =====
-- The writing requests of http.go, and runs of them one after the other.
use distributed_ml_inference.Prelude.{
  ℤ, pos, ◌≤ℤ◌, ltb_ℤ, String, false, ◌||◌, Bool-cases, Option-cases, List, [], ◌∷◌, ◌==◌, ◌≡◌, inl,
  inr, eq_iff, arith,
}
use distributed_ml_inference.Models.{ModelVersion, stage_production}
use distributed_ml_inference.Deployer.Registry.{Db}
use distributed_ml_inference.Deployer.Registry.Consistent.{IsConsistent}
use distributed_ml_inference.Deployer.Registry.Updates.{deploy-IsConsistent, rollback-IsConsistent}
use distributed_ml_inference.Deployer.Registry.Rows.{
  set_traffic-IsConsistent, register-IsConsistent,
}
use distributed_ml_inference.Deployer.Handler.{
  Host, Response, Decoded, RegisterRequest, DeployRequest, RollbackRequest, TrafficRequest,
  handle_register, handle_deploy, handle_rollback, handle_traffic, version_to_register, failed,
}

-- A request that writes.
pub data Call : Type 0 where
  registers : Decoded RegisterRequest → Call
  deploys : String → Decoded DeployRequest → Call
  rolls_back : String → Decoded RollbackRequest → Call
  splits : String → Decoded TrafficRequest → Call

handle_register-IsConsistent :
    (host : Host) (d : Decoded RegisterRequest) (db : Db)
    → IsConsistent db
    → IsConsistent (handle_register host d db).1
unfolding handle_register
handle_register-IsConsistent host d db h =
    let req = d.value in
    elim (Option-cases d.error) [
      | inr (e, t) ↦ rw t h
      | inl f ↦
          rw f
            (elim (Bool-cases
              (req.model_name == "" || req.version == "" || req.artifact_path == "")) [
                | inl t ↦ rw t h
                | inr g ↦ rw g (
                    register-IsConsistent host.marshal_error host.faults host.now
                      (version_to_register req) db (ground (arith, eq_iff "" stage_production))
                      (omega arith, omega arith) h)
              ])
    ]

handle_deploy-IsConsistent :
    (host : Host) (name : String) (d : Decoded DeployRequest) (db : Db)
    → IsConsistent db
    → IsConsistent (handle_deploy host name d db).1
unfolding handle_deploy
handle_deploy-IsConsistent host name d db h =
    elim (Bool-cases (failed d || d.value.version == "")) [
      | inl t ↦ rw t h
      | inr f ↦
          rw f (deploy-IsConsistent host.faults host.now name d.value.version d.value.reason db h)
    ]

in_range : (x : ℤ) → (ltb_ℤ x (pos 0) || ltb_ℤ (pos 100) x) ≡ false → (pos 0 ≤ℤ x) × (x ≤ℤ pos 100)
in_range x h = ground arith

handle_traffic-IsConsistent :
    (host : Host) (name : String) (d : Decoded TrafficRequest) (db : Db)
    → IsConsistent db
    → IsConsistent (handle_traffic host name d db).1
unfolding handle_traffic
handle_traffic-IsConsistent host name d db h =
    let req = d.value in
    elim (Bool-cases (failed d || req.version == "")) [
      | inl t ↦ rw t h
      | inr f ↦
          rw f
            (elim (Bool-cases (ltb_ℤ req.traffic_pct (pos 0) || ltb_ℤ (pos 100) req.traffic_pct)) [
              | inl t ↦ rw t h
              | inr g ↦ rw g (
                  set_traffic-IsConsistent host.faults name req.version req.traffic_pct db
                    (in_range req.traffic_pct g) h)
            ])
    ]

module _ (newest_first : List ModelVersion → List ModelVersion) where
  abbrev pub serve : Host → Call → Db → Response × Db
  serve host (registers d) db = handle_register host d db
  serve host (deploys name d) db = handle_deploy host name d db
  serve host (rolls_back name d) db = handle_rollback newest_first host name d db
  serve host (splits name d) db = handle_traffic host name d db

  -- The requests that a deployer serves, one after the other.
  abbrev pub served : List (Host × Call) → Db → Db
  served [] db = db
  served ((host, call) ∷ calls) db = served calls (serve host call db).1

  pub serve-IsConsistent :
      (host : Host) (call : Call) (db : Db) → IsConsistent db → IsConsistent (serve host call db).1
  unfolding handle_rollback
  serve-IsConsistent host (registers d) db h = handle_register-IsConsistent host d db h
  serve-IsConsistent host (deploys name d) db h = handle_deploy-IsConsistent host name d db h
  serve-IsConsistent host (rolls_back name d) db h =
      rollback-IsConsistent newest_first host.faults host.now name d.value.reason db h
  serve-IsConsistent host (splits name d) db h = handle_traffic-IsConsistent host name d db h

  -- Whatever requests are served, and whatever statements end in an error, consistent tables
  -- stay so: one row for each version of a model, at most one of a model's versions in production,
  -- and traffic percentages from 0 to 100.
  pub served-IsConsistent :
      (calls : List (Host × Call)) (db : Db) → IsConsistent db → IsConsistent (served calls db)
  served-IsConsistent [] db h = h
  served-IsConsistent ((host, call) ∷ calls) db h =
      served-IsConsistent calls (serve host call db).1 (serve-IsConsistent host call db h)
