-- ===== src/Deployer/Service/Tests.antt =====
-- The deployer's server on concrete requests.
use distributed_ml_inference.Prelude.{
  ℕ, split_on, ◌+◌, ◌-◌, pos, String, none, List, [], ◌∷◌, keep, ◌≡◌, ◌⊎◌, ◌↔◌, refl, arith,
}
use distributed_ml_inference.Models.{ModelVersion, precision_fp32, stage_staging}
use distributed_ml_inference.Metrics.{Prometheus, Set, ResponseWriter, new_set}
use distributed_ml_inference.Metrics.Counts.{fresh}
use distributed_ml_inference.Mux.{found, target, Values, parse, segment, without_last, match_path}
use distributed_ml_inference.Deployer.Registry.{
  Db, deploy, update, affected, is_version, is_at_stage, record_event,
}
use distributed_ml_inference.Deployer.Registry.Promoted.{IsServing}
use distributed_ml_inference.Deployer.Registry.Consistent.{IsConsistent}
use distributed_ml_inference.Deployer.Handler.{
  Host, Decoded, Body, model, write_json, handle_deploy,
}
use distributed_ml_inference.Deployer.Entry.{write_response}
use distributed_ml_inference.Deployer.Service.{Endpoint, deploy as deploys_to, mux, Request, serve}
use distributed_ml_inference.Deployer.Service.Routes.{Reaches, target-Reaches}
use distributed_ml_inference.Deployer.Service.Unique.{Takes-unique}
use distributed_ml_inference.Deployer.Service.Tables.{Good, served_all, served_all-Good}
use distributed_ml_inference.Deployer.Service.Promotion.{Writes, deploy-production, served-Writes}

abbrev prometheus : Prometheus ℕ ℕ ℕ
prometheus = record {
  new_counter_vec = λ namespace name help labels. 0;
  new_histogram_vec = λ namespace name help buckets labels. 0;
  new_gauge = λ namespace name help. 0;
  count = λ ls c. c + 1;
  observe = λ ls v h. h + 1;
  inc = λ g. g + 1;
  dec = λ g. g - 1;
  seconds = λ d. 0;
  itoa = λ code. "";
}

abbrev writer : ResponseWriter Body (List ℕ)
writer = record { write_header = λ code w. code ∷ w; write = λ b w. 0 ∷ w }

abbrev expose : Set ℕ ℕ ℕ → List ℕ → List ℕ
expose set w = 1 ∷ w

abbrev mux_error : ℕ → List ℕ → List ℕ
mux_error code w = code ∷ w

abbrev as_stored : List ModelVersion → List ModelVersion
as_stored rows = rows

abbrev row : String → String → ModelVersion
row version stage = record {
  model_name = "register";
  version = version;
  stage = stage;
  precision = precision_fp32;
  artifact_path = "/models/register";
  metrics = [];
  traffic_pct = pos 0;
  created_at = pos 1;
}

-- A model with the name of the path that registers.
abbrev tables : Db
tables = record { versions = row "v1" stage_staging ∷ []; events = [] }

tables-IsConsistent : IsConsistent tables
tables-IsConsistent = record { rows = (tt, tt); traffic = ((omega arith, omega arith), tt) }

abbrev set : Set ℕ ℕ ℕ
set = new_set prometheus "model_deployer"

abbrev host : Host
host = record { marshal_error = none; faults = λ _. none; now = pos 5 }

abbrev decoded : {A : Type 0} → A → Decoded A
decoded a = record { value = a; error = none }

abbrev request : String → List String → Request
request method parts = record {
  method = method;
  parts = parts;
  elapsed = pos 3;
  registers =
      decoded (record {
        model_name = "";
        version = "";
        precision = "";
        artifact_path = "";
        metrics = [];
      });
  deploys = decoded (record { version = "v1"; reason = "better" });
  rolls_back = decoded (record { reason = "" });
  splits = decoded (record { version = "v1"; traffic_pct = pos 10 });
}

abbrev to_deploy : Request
to_deploy = request "POST" ("v1" ∷ "models" ∷ "register" ∷ "deploy" ∷ [])

abbrev to_read : Request
to_read = request "GET" ("v1" ∷ "models" ∷ "register" ∷ "production" ∷ [])

abbrev elsewhere : Request
elsewhere = request "PUT" ("v1" ∷ "models" ∷ "register" ∷ "deploy" ∷ [])

target-Reaches_example :
    (target mux "POST" to_deploy.parts ≡ found deploys_to (("name", "register") ∷ []))
    ↔ Reaches deploys_to (("name", "register") ∷ []) "POST" to_deploy.parts
target-Reaches_example =
    target-Reaches deploys_to "POST" to_deploy.parts (("name", "register") ∷ [])

abbrev requests : List (Host × Request × List ℕ)
requests = (host, to_deploy, []) ∷ (host, elsewhere, []) ∷ (host, to_read, []) ∷ []

served_all-Good_example :
    Good prometheus "model_deployer"
      (served_all prometheus writer expose mux_error as_stored requests (set, tables))
served_all-Good_example =
    served_all-Good prometheus writer expose mux_error as_stored "model_deployer" requests
      (set, tables) ([], fresh, tables-IsConsistent)

answered_200 : (handle_deploy host "register" to_deploy.deploys tables).0.status ≡ 200
unfolding handle_deploy deploy update affected is_version is_at_stage record_event keep
answered_200 = refl

deploy-production_example :
    (row : ModelVersion) × IsServing "register" "v1" row
    × ((serve prometheus writer expose mux_error as_stored host to_read [] (
      set,
      (serve prometheus writer expose mux_error as_stored host to_deploy [] (set, tables)).1.1,
    )).0
        ≡ write_response writer (write_json 200 (model row)) [])
deploy-production_example =
    deploy-production prometheus writer expose mux_error as_stored host host to_deploy to_read [] []
      set set tables "register" refl refl refl refl refl answered_200

served-Writes_example :
    ((serve prometheus writer expose mux_error as_stored host to_deploy [] (set, tables)).1.1
      ≡ tables)
    ⊎ ((e : Endpoint) × (values : Values) × Writes e × Reaches e values "POST" to_deploy.parts)
served-Writes_example =
    served-Writes prometheus writer expose mux_error as_stored host to_deploy [] set tables

Takes-unique_example :
    ◌≡◌ {A = Endpoint} deploys_to deploys_to
    × ◌≡◌ {A = Values} (("name", "register") ∷ []) (("name", "register") ∷ [])
unfolding parse segment without_last split_on match_path
Takes-unique_example =
    Takes-unique "POST" to_deploy.parts deploys_to deploys_to (("name", "register") ∷ [])
      (("name", "register") ∷ []) (refl, refl) (refl, refl)
