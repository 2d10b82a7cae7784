-- ===== src/Deployer/Tests.antt =====
-- services/model-deployer-go on a registry with two versions of a model.
use distributed_ml_inference.Prelude.{
  false, ℤ, pos, ◌≡◌, refl, String, none, List, [], ◌∷◌, eq_iff, arith, keep, ltb,
}
use distributed_ml_inference.Models.{ModelVersion, precision_fp32, stage_staging, stage_production}
use distributed_ml_inference.Deployer.Registry.{
  Db, ok, err, not_found, Faults, deploy, update, is_version, is_at_stage, affected, record_event,
}
use distributed_ml_inference.Deployer.Registry.Consistent.{Compatible, IsConsistent}
use distributed_ml_inference.Deployer.Handler.{Host, Decoded, handle_deploy}
use distributed_ml_inference.Deployer.Handler.Errors.{Left, serve_error_unchanged}
use distributed_ml_inference.Deployer.Handler.Requests.{Call, deploys, serve}

abbrev row : String → String → ℤ → ModelVersion
row version stage pct = record {
  model_name = "detector";
  version = version;
  stage = stage;
  precision = precision_fp32;
  artifact_path = "/models/detector";
  metrics = [];
  traffic_pct = pct;
  created_at = pos 1;
}

abbrev two_versions : Db
two_versions = record {
  versions = row "v1" stage_production (pos 100) ∷ row "v2" stage_staging (pos 0) ∷ [];
  events = [];
}

two_versions-IsConsistent : IsConsistent two_versions
two_versions-IsConsistent = record {
  rows = ((apart, tt), (tt, tt));
  traffic = ((omega arith, omega arith), ((omega arith, omega arith), tt));
}
  where
    apart : Compatible (row "v1" stage_production (pos 100)) (row "v2" stage_staging (pos 0))
    apart = record {
      versions = λ m e. ground (arith, eq_iff "v1" "v2");
      one_production = λ m p q. ground (arith, eq_iff stage_staging stage_production);
    }

abbrev no_faults : Faults
no_faults n = none

abbrev host : Host
host = record { marshal_error = none; faults = no_faults; now = pos 5 }

-- The order that the server returns rows in.
abbrev as_stored : List ModelVersion → List ModelVersion
as_stored rows = rows

abbrev decoded : {A : Type 0} → A → Decoded A
decoded a = record { value = a; error = none }

deployed : (deploy no_faults (pos 5) "detector" "v2" "better" two_versions).0 ≡ ok tt
unfolding deploy update is_version is_at_stage affected record_event keep
deployed = refl

not_deployed : (deploy no_faults (pos 5) "detector" "v3" "" two_versions).0 ≡ err not_found
unfolding deploy update is_version is_at_stage affected record_event keep
not_deployed = refl

-- A deployment of a version that nobody registered.
abbrev unknown : Call
unknown = deploys "detector" (decoded (record { version = "v3"; reason = "" }))

answered_404 : ltb (serve as_stored host unknown two_versions).0.status 400 ≡ false
unfolding handle_deploy deploy update is_version is_at_stage affected record_event keep
answered_404 = refl

serve_error_unchanged_example :
    Left no_faults two_versions (serve as_stored host unknown two_versions)
serve_error_unchanged_example =
    serve_error_unchanged as_stored host unknown two_versions answered_404
