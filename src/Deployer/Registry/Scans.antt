-- ===== src/Deployer/Registry/Scans.antt =====
-- services/model-deployer-go/internal/registry/registry.go: how the rows that the server sends become
-- values. The metrics are stored as JSON, of a type `J`; encoding/json is a parameter.
use distributed_ml_inference.Prelude.{
  String, ℤ, Option, none, some, List, [], ◌∷◌, map, keep, head?, ◌==◌, ◌≡◌, refl, ap, ◌∙◌,
}
use distributed_ml_inference.Models.{
  F64, Time, Precision, ModelStage, ModelVersion, stage_production,
}
use distributed_ml_inference.Deployer.Registry.{
  Db, not_found, failure, Result, ok, err, is_at_stage, some_row, production, list, ◌>>=◌,
}

-- A row of model_versions, in the order of the columns that are selected.
pub record Row (J : Type 0) : Type 0 where
  pub model_name : String
  pub version : String
  pub stage : ModelStage
  pub precision : Precision
  pub artifact_path : String
  pub metrics_json : J
  pub traffic_pct : ℤ
  pub created_at : Time

-- What Scan reads: a row, or its error, pgx.ErrNoRows or another with its text.
pub data Scanned (J : Type 0) : Type 0 where
  row : Row J → Scanned J
  no_rows : Scanned J
  scan_failed : String → Scanned J

-- json.Marshal, and what json.Unmarshal leaves in a nil map, whose error is dropped.
pub record Json (J : Type 0) : Type 0 where
  pub marshal : List (String × F64) → J
  pub unmarshal : J → List (String × F64)

-- JSON gives back the metrics that it wrote.
abbrev pub IsRoundTrip : {J : Type 0} → Json J → Type 0
IsRoundTrip json = (metrics : List (String × F64)) → json.unmarshal (json.marshal metrics) ≡ metrics

-- An error of Scan, with its text; `none` is pgx.ErrNoRows.
pub data ScanResult : Type 0 where
  scanned : ModelVersion → ScanResult
  failed : Option String → ScanResult

module _ {J : Type 0} (json : Json J) where
  abbrev pub version_of : Row J → ModelVersion
  version_of r = record {
    model_name = r.model_name;
    version = r.version;
    stage = r.stage;
    precision = r.precision;
    artifact_path = r.artifact_path;
    metrics = json.unmarshal r.metrics_json;
    traffic_pct = r.traffic_pct;
    created_at = r.created_at;
  }

  unfoldable pub scan_version : Scanned J → ScanResult
  scan_version (row r) = scanned (version_of r)
  scan_version no_rows = failed none
  scan_version (scan_failed e) = failed (some e)

  -- What queryOne makes of it.
  abbrev pub or_not_found : ScanResult → Result ModelVersion
  or_not_found (scanned mv) = ok mv
  or_not_found (failed none) = err not_found
  or_not_found (failed (some e)) = err (failure e)

  -- The error of a Scan in the loop of List, where pgx.ErrNoRows is an error as any other.
  abbrev pub or_error : ScanResult → Result ModelVersion
  or_error (scanned mv) = ok mv
  or_error (failed none) = err (failure "no rows in result set")
  or_error (failed (some e)) = err (failure e)

  unfoldable pub query_one : Scanned J → Result ModelVersion
  unfolding scan_version
  query_one s = or_not_found (scan_version s)

  abbrev pub ended : Option String → Result (List ModelVersion)
  ended none = ok []
  ended (some e) = err (failure e)

  -- The loop of List, with the error of rows.Err() after it.
  unfoldable pub scan_all : List (Scanned J) → Option String → Result (List ModelVersion)
  unfolding scan_version
  scan_all [] rows_err = ended rows_err
  scan_all (s ∷ rows) rows_err = do
    mv ← or_error (scan_version s)
    out ← scan_all rows rows_err
    ok (mv ∷ out)

  -- The row that is stored for a version.
  abbrev pub stored : ModelVersion → Row J
  stored mv = record {
    model_name = mv.model_name;
    version = mv.version;
    stage = mv.stage;
    precision = mv.precision;
    artifact_path = mv.artifact_path;
    metrics_json = json.marshal mv.metrics;
    traffic_pct = mv.traffic_pct;
    created_at = mv.created_at;
  }

  abbrev pub sent : Option ModelVersion → Scanned J
  sent none = no_rows
  sent (some mv) = row (stored mv)

  version_of-stored : IsRoundTrip json → (mv : ModelVersion) → version_of (stored mv) ≡ mv
  version_of-stored trip mv = ap (λ m. record mv { metrics = m }) (trip mv.metrics)

  query_one-sent :
      IsRoundTrip json
      → (found : Option ModelVersion) → query_one (sent found) ≡ some_row (λ rows. rows) found
  unfolding query_one scan_version
  query_one-sent trip none = refl
  query_one-sent trip (some mv) = ap ok (version_of-stored trip mv)

  scan_all-stored :
      IsRoundTrip json
      → (rows : List ModelVersion) → scan_all (map (λ mv. row (stored mv)) rows) none ≡ ok rows
  unfolding scan_all scan_version
  scan_all-stored trip [] = refl
  scan_all-stored trip (mv ∷ rows) =
      ap (λ out. (do rest ← out; ok (version_of (stored mv) ∷ rest))) (scan_all-stored trip rows)
      ∙ ap (λ v. ok (v ∷ rows)) (version_of-stored trip mv)

  -- Where JSON gives back the metrics that it wrote, the reads of the stored rows are those of the
  -- versions: the production query scans the first row in production, or finds none, and the list
  -- scans every row of the model in the server's order.
  pub scans-reads :
      IsRoundTrip json
      → (newest_first : List ModelVersion → List ModelVersion) (name : String) (db : Db)
      → (query_one (sent (head? (keep (is_at_stage name stage_production) db.versions)))
          ≡ production (λ _. none) name db)
        × (scan_all
              (map
                (λ mv. row (stored mv))
                (newest_first (keep (λ mv. mv.model_name == name) db.versions)))
              none
            ≡ list newest_first (λ _. none) name db)
  unfolding production list
  scans-reads trip newest_first name db = (
    query_one-sent trip (head? (keep (is_at_stage name stage_production) db.versions)),
    scan_all-stored trip (newest_first (keep (λ mv. mv.model_name == name) db.versions)),
  )
