-- ===== src/Deployer/Registry.antt =====
-- services/model-deployer-go/internal/registry/registry.go, over the tables of internal/db/schema.sql.
-- A statement is what its SQL text says of the rows; any statement may end in an error, which is the
-- `Faults` of a call, and `newest_first` is its ORDER BY created_at DESC, ties in any order. A call
-- runs alone: what the transactions of concurrent requests see of each other at READ COMMITTED is
-- not modelled.
pub mod Consistent
pub mod Updates
pub mod Rows
pub mod Promoted
pub mod Scans
use distributed_ml_inference.Prelude.{
  ℕ, suc, ℤ, pos, String, Bool, true, false, ◌&&◌, eqb, Option, none, some, List, [], ◌∷◌, ◌++◌,
  map, keep, head?, length, ◌==◌, if◌then◌else◌,
}
use distributed_ml_inference.Models.{
  Time, ModelVersion, stage_staging, stage_production, stage_archived,
}

pub record DeploymentEvent : Type 0 where
  pub model_name : String
  pub version : String
  pub action : String
  pub reason : String
  pub created_at : Time

pub record Db : Type 0 where
  pub versions : List ModelVersion
  pub events : List DeploymentEvent

-- ErrNotFound, or an error of the database
pub data Error : Type 0 where
  not_found : Error
  failure : String → Error

pub data Result {ℓ} (A : Type ℓ) : Type ℓ where
  ok : A → Result A
  err : Error → Result A

infixl 5 ◌>>=◌ ◌>>◌
-- `if err != nil { return err }`
abbrev pub ◌>>=◌ {ℓ κ} : {X : Type ℓ} {Y : Type κ} → Result X → (X → Result Y) → Result Y
err failed >>= next = err failed
ok value >>= next = next value

abbrev pub ◌>>◌ {ℓ} : {Y : Type ℓ} → Result (Unit {0}) → Result Y → Result Y
first >> next = first >>= λ _. next

-- An error of a statement: the server refused it, or carried it out and its answer was lost, as when
-- the connection breaks or the context ends.
pub data Fault : Type 0 where
  refused lost : String → Fault

-- The errors of the statements of a call, in their order, Begin and Commit among them.
abbrev pub Faults : Type 0
Faults = ℕ → Option Fault

abbrev pub attempt : Option Fault → Result (Unit {0})
attempt none = ok tt
attempt (some (refused e)) = err (failure e)
attempt (some (lost e)) = err (failure e)

-- The error of json.Marshal.
abbrev pub marshals : Option String → Result (Unit {0})
marshals none = ok tt
marshals (some e) = err (failure e)

-- RowsAffected() == 0
abbrev pub found : ℕ → Result (Unit {0})
found n = if eqb n 0 then err not_found else ok tt

-- The statement that makes the changes of a call last, Commit or an Exec outside of a transaction:
-- what the call returns after it, with the tables that the server then has.
abbrev pub executed {ℓ} : {A : Type ℓ} → Option Fault → Result A → Db → Result (Result A × Db)
executed none r db' = ok (r, db')
executed (some (refused e)) r db' = err (failure e)
executed (some (lost e)) r db' = ok (err (failure e), db')

-- What a call returns and what it leaves: an error before that statement, or its refusal, discards
-- the transaction (`defer tx.Rollback`).
abbrev pub settle {ℓ} : {A : Type ℓ} → Db → Result (Result A × Db) → Result A × Db
settle db (ok ended) = ended
settle db (err e) = (err e, db)

-- WHERE model_name = $ AND version = $
unfoldable pub is_version : String → String → ModelVersion → Bool
is_version name version row = row.model_name == name && row.version == version

-- WHERE model_name = $ AND stage = $
unfoldable pub is_at_stage : String → String → ModelVersion → Bool
is_at_stage name stage row = row.model_name == name && row.stage == stage

-- UPDATE … SET … WHERE …, and its RowsAffected
unfoldable pub update : (ModelVersion → Bool) → (ModelVersion → ModelVersion) → Db → Db
update p f db = record db { versions = map (λ row. if p row then f row else row) db.versions }

unfoldable pub affected : (ModelVersion → Bool) → Db → ℕ
affected p db = length (keep p db.versions)

abbrev pub archive : ModelVersion → ModelVersion
archive row = record row { stage = stage_archived; traffic_pct = pos 0 }

abbrev pub promote : ModelVersion → ModelVersion
promote row = record row { stage = stage_production; traffic_pct = pos 100 }

-- INSERT INTO deployment_events
unfoldable pub record_event : Time → String → String → String → String → Db → Db
record_event now name version action reason db = record db {
  events =
      db.events
      ++ record {
        model_name = name;
        version = version;
        action = action;
        reason = reason;
        created_at = now;
      }
        ∷ [];
}

-- The SET of ON CONFLICT … DO UPDATE: all but the key and created_at.
abbrev pub replace : ModelVersion → ModelVersion → ModelVersion
replace mv row = record row {
  stage = mv.stage;
  precision = mv.precision;
  artifact_path = mv.artifact_path;
  metrics = mv.metrics;
  traffic_pct = mv.traffic_pct;
}

unfoldable pub upsert : Time → ModelVersion → List ModelVersion → List ModelVersion
unfolding is_version
upsert now mv [] = record mv { created_at = now } ∷ []
upsert now mv (row ∷ rows) =
    if is_version mv.model_name mv.version row
    then replace mv row ∷ rows
    else row ∷ upsert now mv rows

abbrev pub staged : ModelVersion → ModelVersion
staged mv = record mv { stage = if mv.stage == "" then stage_staging else mv.stage }

-- `marshal_error` is the error of json.Marshal on the metrics, if any.
unfoldable pub register : Option String → Faults → Time → ModelVersion → Db → Result (Unit {0}) × Db
unfolding upsert
register marshal_error faults now mv db = settle db (do
  marshals marshal_error
  executed (faults 0) (ok tt) (record db { versions = upsert now (staged mv) db.versions }))

unfoldable pub deploy : Faults → Time → String → String → String → Db → Result (Unit {0}) × Db
unfolding update affected is_version is_at_stage record_event
deploy faults now name version reason db = settle db (do
  attempt (faults 0)
  attempt (faults 1)
  let db₁ = update (is_at_stage name stage_production) archive db
  attempt (faults 2)
  let db₂ = update (is_version name version) promote db₁
  found (affected (is_version name version) db₁)
  attempt (faults 3)
  let db₃ = record_event now name version "deploy" reason db₂
  executed (faults 4) (ok tt) db₃)

module _ (newest_first : List ModelVersion → List ModelVersion) where
  -- SELECT version … ORDER BY created_at DESC LIMIT 1, for the archived versions
  unfoldable pub last_archived : String → Db → Option ModelVersion
  unfolding is_at_stage
  last_archived name db = head? (newest_first (keep (is_at_stage name stage_archived) db.versions))

  abbrev pub some_row : Option ModelVersion → Result ModelVersion
  some_row none = err not_found
  some_row (some row) = ok row

  unfoldable pub rollback : Faults → Time → String → String → Db → Result String × Db
  unfolding update is_version is_at_stage record_event last_archived
  rollback faults now name reason db = settle db (do
    attempt (faults 0)
    attempt (faults 1)
    prev ← some_row (last_archived name db)
    attempt (faults 2)
    let db₁ = update (is_at_stage name stage_production) archive db
    attempt (faults 3)
    let db₂ = update (is_version name prev.version) promote db₁
    attempt (faults 4)
    let db₃ = record_event now name prev.version "rollback" reason db₂
    executed (faults 5) (ok prev.version) db₃)

  unfoldable pub list : Faults → String → Db → Result (List ModelVersion)
  list faults name db = do
    attempt (faults 0)
    ok (newest_first (keep (λ row. row.model_name == name) db.versions))

unfoldable pub set_traffic : Faults → String → String → ℤ → Db → Result (Unit {0}) × Db
unfolding update affected is_version
set_traffic faults name version pct db = settle db (
    executed (faults 0) (found (affected (is_version name version) db))
      (update (is_version name version) (λ row. record row { traffic_pct = pct }) db))

-- QueryRow takes the first row that the server sends.
unfoldable pub production : Faults → String → Db → Result ModelVersion
unfolding is_at_stage
production faults name db = do
  attempt (faults 0)
  some_row (λ rows. rows) (head? (keep (is_at_stage name stage_production) db.versions))
