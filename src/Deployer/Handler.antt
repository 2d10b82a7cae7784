-- ===== src/Deployer/Handler.antt =====
-- services/model-deployer-go/internal/handler/http.go. The JSON of a request is a parameter: what
-- the decoder left in the request struct, and its error. `registry` is the store behind it.
pub mod Requests
pub mod Errors
use distributed_ml_inference.Prelude.{
  ℕ, ℤ, pos, ltb_ℤ, String, Bool, true, false, ◌||◌, Option, none, some, List, ◌==◌, if◌then◌else◌,
}
use distributed_ml_inference.Models.{Time, F64, Precision, precision_fp32, ModelVersion}
use distributed_ml_inference.Deployer.Registry.{
  Db, Result, ok, err, Error, not_found, failure, Faults, register, deploy, rollback, set_traffic,
  list, production,
}

pub record RegisterRequest : Type 0 where
  pub model_name : String
  pub version : String
  pub precision : String
  pub artifact_path : String
  pub metrics : List (String × F64)

pub record DeployRequest : Type 0 where
  pub version : String
  pub reason : String

pub record RollbackRequest : Type 0 where
  pub reason : String

pub record TrafficRequest : Type 0 where
  pub version : String
  pub traffic_pct : ℤ

-- The values that the handlers write as JSON.
pub data Body : Type 0 where
  message : String → Body
  registered : Body
  versions : List ModelVersion → Body
  model : ModelVersion → Body
  deployed : String → Body
  rolled_back : String → Body
  updated : String → ℤ → Body
  healthy : Body

pub record Response : Type 0 where
  pub status : ℕ
  pub body : Body

-- A decoded request: the struct as the decoder left it, and its error.
pub record Decoded (A : Type 0) : Type 0 where
  pub value : A
  pub error : Option String

abbrev pub failed : {A : Type 0} → Decoded A → Bool
failed d = elim d.error [ none ↦ false | some _ ↦ true ]

-- errors.Is(err, registry.ErrNotFound), and err.Error()
abbrev pub status_of : Error → ℕ
status_of not_found = 404
status_of (failure _) = 500

abbrev pub text_of : Error → String
text_of not_found = "model version not found"
text_of (failure e) = e

abbrev pub write_error : ℕ → String → Response
write_error status text = record { status = status; body = message text }

abbrev pub write_json : ℕ → Body → Response
write_json status body = record { status = status; body = body }

-- What the server answers to one request: the errors of json.Marshal and of the database, the time.
pub record Host : Type 0 where
  pub marshal_error : Option String
  pub faults : Faults
  pub now : Time

-- A handler's response, from the result of the registry's call.
abbrev pub respond {ℓ} : {A : Type ℓ} → (A → Response) → Result A → Response
respond k (ok a) = k a
respond k (err e) = write_error (status_of e) (text_of e)

-- The handlers that do not look for ErrNotFound.
abbrev pub respond_500 {ℓ} : {A : Type ℓ} → (A → Response) → Result A → Response
respond_500 k (ok a) = k a
respond_500 k (err e) = write_error 500 (text_of e)

abbrev pub version_to_register : RegisterRequest → ModelVersion
version_to_register req = record {
  model_name = req.model_name;
  version = req.version;
  stage = "";
  precision = if req.precision == "" then precision_fp32 else req.precision;
  artifact_path = req.artifact_path;
  metrics = req.metrics;
  traffic_pct = pos 0;
  created_at = pos 0;
}

unfoldable pub handle_register : Host → Decoded RegisterRequest → Db → Response × Db
handle_register host d db =
    let req = d.value in
    elim d.error [
      | some e ↦ (write_error 400 e, db)
      | none ↦
          if req.model_name == "" || req.version == "" || req.artifact_path == ""
          then (write_error 400 "model_name, version and artifact_path are required", db)
          else let done =
              register host.marshal_error host.faults host.now (version_to_register req) db in
            (respond_500 (λ _. write_json 201 registered) done.0, done.1)
    ]

unfoldable pub handle_deploy : Host → String → Decoded DeployRequest → Db → Response × Db
handle_deploy host name d db =
    if failed d || d.value.version == ""
    then (write_error 400 "version is required", db)
    else let done = deploy host.faults host.now name d.value.version d.value.reason db in
      (respond (λ _. write_json 200 (deployed d.value.version)) done.0, done.1)

unfoldable pub handle_traffic : Host → String → Decoded TrafficRequest → Db → Response × Db
handle_traffic host name d db =
    let req = d.value in
    if failed d || req.version == ""
    then (write_error 400 "version is required", db)
    else if ltb_ℤ req.traffic_pct (pos 0) || ltb_ℤ (pos 100) req.traffic_pct
    then (write_error 400 "traffic_pct must be 0-100", db)
    else let done = set_traffic host.faults name req.version req.traffic_pct db in
      (respond (λ _. write_json 200 (updated req.version req.traffic_pct)) done.0, done.1)

unfoldable pub handle_production : Host → String → Db → Response
handle_production host name db =
    respond (λ row. write_json 200 (model row)) (production host.faults name db)

abbrev pub handle_healthz : Response
handle_healthz = write_json 200 healthy

module _ (newest_first : List ModelVersion → List ModelVersion) where
  unfoldable pub handle_list : Host → String → Db → Response
  handle_list host name db =
      respond_500 (λ rows. write_json 200 (versions rows)) (list newest_first host.faults name db)

  -- The decoder's error is dropped.
  unfoldable pub handle_rollback : Host → String → Decoded RollbackRequest → Db → Response × Db
  handle_rollback host name d db =
      let done = rollback newest_first host.faults host.now name d.value.reason db in
      (respond (λ prev. write_json 200 (rolled_back prev)) done.0, done.1)
