-- ===== src/Deployer/Registry/Consistent.antt =====
-- When the rows of model_versions are consistent, and the two updates of Deploy and Rollback on them.
use distributed_ml_inference.Prelude.{
  pos, ◌≤ℤ◌, ◌≡◌, ◌≢◌, ◌⊎◌, refl, sym, ◌∙◌, String, true, false, Bool-cases, List, [], ◌∷◌, map,
  All, eq_iff, inl, inr, if◌then◌else◌, arith,
}
use mathlib.Core.List.{map-map}
use distributed_ml_inference.Models.{ModelVersion, stage_production, stage_archived}
use distributed_ml_inference.Deployer.Registry.{
  Db, is_version, is_at_stage, update, archive, promote,
}

-- Two rows of one table: of one model, they are different versions, and not both in production.
pub record Compatible (a b : ModelVersion) : Type 0 where
  pub versions : a.model_name ≡ b.model_name → a.version ≢ b.version
  pub one_production :
      a.model_name ≡ b.model_name → a.stage ≡ stage_production → b.stage ≢ stage_production

abbrev pub Pairwise : (ModelVersion → ModelVersion → Type 0) → List ModelVersion → Type 0
Pairwise R [] = Unit
Pairwise R (x ∷ xs) = All (R x) xs × Pairwise R xs

abbrev pub IsPercentage : ModelVersion → Type 0
IsPercentage row = (pos 0 ≤ℤ row.traffic_pct) × (row.traffic_pct ≤ℤ pos 100)

pub record IsConsistent (db : Db) : Type 0 where
  pub rows : Pairwise Compatible db.versions
  pub traffic : All IsPercentage db.versions

pub All-map :
    (P Q : ModelVersion → Type 0) (f : ModelVersion → ModelVersion) (xs : List ModelVersion)
    → ((x : ModelVersion) → P x → Q (f x))
    → All P xs
    → All Q (map f xs)
All-map P Q f [] k h = tt
All-map P Q f (x ∷ xs) k h = (k x h.0, All-map P Q f xs k h.1)

pub Pairwise-map :
    (R S : ModelVersion → ModelVersion → Type 0) (f : ModelVersion → ModelVersion)
    (xs : List ModelVersion)
    → ((x y : ModelVersion) → R x y → S (f x) (f y))
    → Pairwise R xs
    → Pairwise S (map f xs)
Pairwise-map R S f [] k h = tt
Pairwise-map R S f (x ∷ xs) k h =
    (All-map (R x) (S (f x)) f xs (k x) h.0, Pairwise-map R S f xs k h.1)

-- The two updates of `Deploy` and of `Rollback` on one row.
abbrev pub demoted : String → ModelVersion → ModelVersion
demoted name row = if is_at_stage name stage_production row then archive row else row

abbrev pub promoted : String → String → ModelVersion → ModelVersion
promoted name version row = if is_version name version row then promote row else row

-- What an update of one row does to its key and to its stage.
pub record SameKey (a b : ModelVersion) : Type 0 where
  pub same_model : b.model_name ≡ a.model_name
  pub same_version : b.version ≡ a.version

pub demoted-SameKey : (name : String) (row : ModelVersion) → SameKey row (demoted name row)
demoted-SameKey name row = elim (Bool-cases (is_at_stage name stage_production row)) [
  | inl t ↦ rw t (record { same_model = refl; same_version = refl })
  | inr f ↦ rw f (record { same_model = refl; same_version = refl })
]

promoted-SameKey :
    (name version : String) (row : ModelVersion) → SameKey row (promoted name version row)
promoted-SameKey name version row = elim (Bool-cases (is_version name version row)) [
  | inl t ↦ rw t (record { same_model = refl; same_version = refl })
  | inr f ↦ rw f (record { same_model = refl; same_version = refl })
]

-- What is in production after `demoted` was so before, and is of another model.
pub demoted_stage :
    (name : String) (row : ModelVersion)
    → (demoted name row).stage ≡ stage_production
    → (row.stage ≡ stage_production) × (row.model_name ≢ name)
unfolding is_at_stage
demoted_stage name row h = ground (
  arith,
  eq_iff row.model_name name,
  eq_iff row.stage stage_production,
  eq_iff stage_archived stage_production,
)

-- What is in production after `promoted` was so before, or is the version that is promoted.
promoted_stage :
    (name version : String) (row : ModelVersion)
    → (promoted name version row).stage ≡ stage_production
    → (row.stage ≡ stage_production) ⊎ ((row.model_name ≡ name) × (row.version ≡ version))
unfolding is_version
promoted_stage name version row h =
    ground (arith, eq_iff row.model_name name, eq_iff row.version version)

-- `Deploy` and `Rollback` on one row: demoted, then promoted.
abbrev pub switched : String → String → ModelVersion → ModelVersion
switched name version row = promoted name version (demoted name row)

switched-SameKey :
    (name version : String) (row : ModelVersion) → SameKey row (switched name version row)
switched-SameKey name version row =
    let first = demoted-SameKey name row in
    let second = promoted-SameKey name version (demoted name row) in
    record {
      same_model = second.same_model ∙ first.same_model;
      same_version = second.same_version ∙ first.same_version;
    }

pub switched_stage :
    (name version : String) (row : ModelVersion)
    → (switched name version row).stage ≡ stage_production
    → ((row.stage ≡ stage_production) × (row.model_name ≢ name))
      ⊎ ((row.model_name ≡ name) × (row.version ≡ version))
switched_stage name version row h =
    let first = demoted-SameKey name row in
    elim (promoted_stage name version (demoted name row) h) [
      | inl before ↦ inl (demoted_stage name row before)
      | inr (m, v) ↦ inr (sym first.same_model ∙ m, sym first.same_version ∙ v)
    ]

-- The switch keeps two rows compatible: what it promotes is one version of a vacated model.
switched-Compatible :
    (name version : String) (a b : ModelVersion)
    → Compatible a b
    → Compatible (switched name version a) (switched name version b)
switched-Compatible name version a b h =
    let ka = switched-SameKey name version a in
    let kb = switched-SameKey name version b in
    record {
      versions = λ m v.
          h.versions (sym ka.same_model ∙ m ∙ kb.same_model)
            (sym ka.same_version ∙ v ∙ kb.same_version);
      one_production = λ m pa pb.
          both_production (sym ka.same_model ∙ m ∙ kb.same_model) (switched_stage name version a pa)
            (switched_stage name version b pb);
    }
  where
    both_production :
        a.model_name ≡ b.model_name
        → ((a.stage ≡ stage_production) × (a.model_name ≢ name))
          ⊎ ((a.model_name ≡ name) × (a.version ≡ version))
        → ((b.stage ≡ stage_production) × (b.model_name ≢ name))
          ⊎ ((b.model_name ≡ name) × (b.version ≡ version))
        → ⊥
    both_production m (inl (pa, _)) (inl (pb, _)) = h.one_production m pa pb
    both_production m (inl (_, other)) (inr (n, _)) = other (m ∙ n)
    both_production m (inr (n, _)) (inl (_, other)) = other (sym m ∙ n)
    both_production m (inr (_, v)) (inr (_, w)) = h.versions m (v ∙ sym w)

switched-IsPercentage :
    (name version : String) (row : ModelVersion)
    → IsPercentage row
    → IsPercentage (switched name version row)
switched-IsPercentage name version row h =
    elim (Bool-cases (is_version name version (demoted name row))) [
      | inl t ↦ rw t (omega arith, omega arith)
      | inr f ↦ rw f (demoted_percentage (Bool-cases (is_at_stage name stage_production row)))
    ]
  where
    demoted_percentage :
        (is_at_stage name stage_production row ≡ true)
          ⊎ (is_at_stage name stage_production row ≡ false)
        → IsPercentage (demoted name row)
    demoted_percentage (inl t) = rw t (omega arith, omega arith)
    demoted_percentage (inr f) = rw f h

abbrev pub switch : String → String → Db → Db
switch name version db =
    update (is_version name version) promote (update (is_at_stage name stage_production) archive db)

pub switch-IsConsistent :
    (name version : String) (db : Db) → IsConsistent db → IsConsistent (switch name version db)
unfolding update
switch-IsConsistent name version db h = record {
  rows = rw map-map (
      Pairwise-map Compatible Compatible (switched name version) db.versions
        (switched-Compatible name version) h.rows);
  traffic = rw map-map (
      All-map IsPercentage IsPercentage (switched name version) db.versions
        (switched-IsPercentage name version) h.traffic);
}
