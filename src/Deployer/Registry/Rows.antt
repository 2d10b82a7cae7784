-- ===== src/Deployer/Registry/Rows.antt =====
-- Register and SetTraffic of registry.go: what they keep of the rows.
use distributed_ml_inference.Prelude.{
  ℤ, pos, ◌≤ℤ◌, ◌≡◌, ◌≢◌, refl, sym, ◌∙◌, String, true, false, Option, Bool-cases, List, [], ◌∷◌,
  All, eq_iff, inl, inr, if◌then◌else◌, arith,
}
use distributed_ml_inference.Models.{Time, ModelVersion, stage_staging, stage_production}
use distributed_ml_inference.Deployer.Registry.{
  Db, Result, ok, Faults, found, is_version, update, affected, replace, upsert, staged, register,
  set_traffic,
}
use distributed_ml_inference.Deployer.Registry.Consistent.{
  Compatible, Pairwise, IsPercentage, IsConsistent, All-map, Pairwise-map,
}
use distributed_ml_inference.Deployer.Registry.Updates.{
  marshals-Ensures, executed-Ensures, settle_keeps,
}

abbrev with_traffic : String → String → ℤ → ModelVersion → ModelVersion
with_traffic name version pct row =
    if is_version name version row then record row { traffic_pct = pct } else row

-- A row whose key and stage are another's.
record SameRow (a b : ModelVersion) : Type 0 where
  same_model : b.model_name ≡ a.model_name
  same_version : b.version ≡ a.version
  same_stage : b.stage ≡ a.stage

with_traffic-SameRow :
    (name version : String) (pct : ℤ) (row : ModelVersion)
    → SameRow row (with_traffic name version pct row)
with_traffic-SameRow name version pct row = elim (Bool-cases (is_version name version row)) [
  | inl t ↦ rw t (record { same_model = refl; same_version = refl; same_stage = refl })
  | inr f ↦ rw f (record { same_model = refl; same_version = refl; same_stage = refl })
]

Compatible-SameRow :
    (a b a' b' : ModelVersion) → SameRow a a' → SameRow b b' → Compatible a b → Compatible a' b'
Compatible-SameRow a b a' b' ka kb h = record {
  versions = λ m v.
      h.versions (sym ka.same_model ∙ m ∙ kb.same_model)
        (sym ka.same_version ∙ v ∙ kb.same_version);
  one_production = λ m pa pb.
      h.one_production (sym ka.same_model ∙ m ∙ kb.same_model) (sym ka.same_stage ∙ pa)
        (sym kb.same_stage ∙ pb);
}

with_traffic-IsPercentage :
    (name version : String) (pct : ℤ) (row : ModelVersion)
    → (pos 0 ≤ℤ pct) × (pct ≤ℤ pos 100)
    → IsPercentage row
    → IsPercentage (with_traffic name version pct row)
with_traffic-IsPercentage name version pct row p h =
    elim (Bool-cases (is_version name version row)) [ inl t ↦ rw t p | inr f ↦ rw f h ]

pub set_traffic-IsConsistent :
    (faults : Faults) (name version : String) (pct : ℤ) (db : Db)
    → (pos 0 ≤ℤ pct) × (pct ≤ℤ pos 100)
    → IsConsistent db
    → IsConsistent (set_traffic faults name version pct db).1
unfolding set_traffic update
set_traffic-IsConsistent faults name version pct db p h =
    let kept : IsConsistent
        (update (is_version name version) (λ row. record row { traffic_pct = pct }) db) =
      record {
        rows =
            Pairwise-map Compatible Compatible (with_traffic name version pct) db.versions
              (λ a b.
                Compatible-SameRow a b _ _ (with_traffic-SameRow name version pct a)
                  (with_traffic-SameRow name version pct b))
              h.rows;
        traffic =
            All-map IsPercentage IsPercentage (with_traffic name version pct) db.versions
              (λ row k. with_traffic-IsPercentage name version pct row p k) h.traffic;
      } in
    settle_keeps IsConsistent db _ h (
      executed-Ensures IsConsistent (faults 0) (found (affected (is_version name version) db)) _
        kept)

-- What `upsert` writes is compatible with a row that is compatible with the rows it is put into.
All-upsert :
    (P : ModelVersion → Type 0) (now : Time) (mv : ModelVersion) (rows : List ModelVersion)
    → ((row : ModelVersion)
        → is_version mv.model_name mv.version row ≡ true
        → P row
        → P (replace mv row))
    → P (record mv { created_at = now })
    → All P rows
    → All P (upsert now mv rows)
unfolding upsert
All-upsert P now mv [] k new h = (new, tt)
All-upsert P now mv (row ∷ rows) k new h =
    let rest = All-upsert P now mv rows k new h.1 in
    elim (Bool-cases (is_version mv.model_name mv.version row)) [
      | inl t ↦ rw (t, is_version) (k row t h.0, h.1)
      | inr f ↦ rw (f, is_version) (h.0, rest)
    ]

key_of :
    (name version : String) (row : ModelVersion)
    → is_version name version row ≡ true
    → (row.model_name ≡ name) × (row.version ≡ version)
unfolding is_version
key_of name version row h = ground (arith, eq_iff row.model_name name, eq_iff row.version version)

other_key :
    (name version : String) (row : ModelVersion)
    → is_version name version row ≡ false
    → row.model_name ≡ name
    → row.version ≢ version
unfolding is_version
other_key name version row h m v =
    ground (arith, eq_iff row.model_name name, eq_iff row.version version)

-- What `replace` does to a row keeps it apart from another one, unless it puts it in production.
Compatible-replace :
    (mv row other : ModelVersion)
    → mv.stage ≢ stage_production
    → Compatible row other
    → Compatible (replace mv row) other
Compatible-replace mv row other s h = record {
  versions = h.versions;
  one_production = λ m p q. s p;
}

Compatible-replaced :
    (mv row other : ModelVersion)
    → mv.stage ≢ stage_production
    → Compatible other row
    → Compatible other (replace mv row)
Compatible-replaced mv row other s h = record {
  versions = h.versions;
  one_production = λ m p q. s q;
}

Pairwise-upsert :
    (now : Time) (mv : ModelVersion) (rows : List ModelVersion)
    → mv.stage ≢ stage_production
    → Pairwise Compatible rows
    → Pairwise Compatible (upsert now mv rows)
unfolding upsert
Pairwise-upsert now mv [] s h = (tt, tt)
Pairwise-upsert now mv (row ∷ rows) s h =
    let rest = Pairwise-upsert now mv rows s h.1 in
    elim (Bool-cases (is_version mv.model_name mv.version row)) [
      | inl t ↦ rw (t, is_version) (All_of_All row rows t h.0, h.1)
      | inr f ↦
          rw (f, is_version)
            (
              All-upsert (Compatible row) now mv rows
                  (λ other k c. Compatible-replaced mv other row s c)
                  (record {
                    versions = λ m. other_key mv.model_name mv.version row f m;
                    one_production = λ m p q. s q;
                  })
                  h.0,
              rest,
            )
    ]
  where
    All_of_All :
        (row : ModelVersion) (others : List ModelVersion)
        → is_version mv.model_name mv.version row ≡ true
        → All (Compatible row) others
        → All (Compatible (replace mv row)) others
    All_of_All row [] t k = tt
    All_of_All row (other ∷ others) t k =
        (Compatible-replace mv row other s k.0, All_of_All row others t k.1)

-- A registration that does not ask for production keeps the tables consistent.
pub register-IsConsistent :
    (marshal_error : Option String) (faults : Faults) (now : Time) (mv : ModelVersion) (db : Db)
    → mv.stage ≢ stage_production
    → IsPercentage mv
    → IsConsistent db
    → IsConsistent (register marshal_error faults now mv db).1
unfolding register
register-IsConsistent marshal_error faults now mv db s p h =
    let Q = λ (r : Result (Unit {0}) × Db). IsConsistent r.1 in
    let kept : IsConsistent (record db { versions = upsert now (staged mv) db.versions }) = record {
      rows = Pairwise-upsert now (staged mv) db.versions staged_stage h.rows;
      traffic = All-upsert IsPercentage now (staged mv) db.versions (λ row k q. p) p h.traffic;
    } in
    settle_keeps IsConsistent db _ h
      (marshals-Ensures Q marshal_error _ (executed-Ensures IsConsistent (faults 0) (ok tt) _ kept))
  where
    staged_stage : (staged mv).stage ≢ stage_production
    staged_stage q = ground (arith, eq_iff mv.stage "", eq_iff stage_staging stage_production)
