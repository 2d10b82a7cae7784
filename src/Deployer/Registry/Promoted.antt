-- ===== src/Deployer/Registry/Promoted.antt =====
-- Deploy and Production of registry.go: the version in production after a deployment.
use distributed_ml_inference.Prelude.{
  ℕ, pos, ◌≡◌, refl, sym, ap, ◌∙◌, String, true, false, eqb, Option, none, some, Bool-cases, List,
  [], ◌∷◌, map, eq_iff, inl, inr, arith, head?, keep, length,
}
use mathlib.Core.List.{map-map}
use distributed_ml_inference.Models.{Time, ModelVersion, stage_production}
use distributed_ml_inference.Deployer.Registry.{
  Db, Result, ok, err, Error, Fault, refused, lost, Faults, attempt, executed, found, settle, ◌>>◌,
  is_version, is_at_stage, update, affected, archive, deploy, record_event, production,
}
use distributed_ml_inference.Deployer.Registry.Consistent.{
  demoted, switched, switch, demoted_stage, demoted-SameKey,
}

-- The row that serves a model: the deployed version, in production and with all of the traffic.
pub record IsServing (name version : String) (row : ModelVersion) : Type 0 where
  pub of_model : row.model_name ≡ name
  pub is_deployed : row.version ≡ version
  pub in_production : row.stage ≡ stage_production
  pub full_traffic : row.traffic_pct ≡ pos 100

switched_promoted :
    (name version : String) (row : ModelVersion)
    → is_version name version (demoted name row) ≡ true
    → is_at_stage name stage_production (switched name version row) ≡ true
unfolding is_version is_at_stage
switched_promoted name version row h =
    rw (h, is_version) (ground (arith, eq_iff (demoted name row).model_name name))

at_stage_iff :
    (name stage : String) (row : ModelVersion)
    → is_at_stage name stage row ≡ true
    → (row.model_name ≡ name) × (row.stage ≡ stage)
unfolding is_at_stage
at_stage_iff name stage row h = ground (arith, eq_iff row.model_name name, eq_iff row.stage stage)

version_of :
    (name version : String) (row : ModelVersion)
    → is_version name version row ≡ true
    → (row.model_name ≡ name) × (row.version ≡ version)
unfolding is_version
version_of name version row h =
    ground (arith, eq_iff row.model_name name, eq_iff row.version version)

switched-IsServing :
    (name version : String) (row : ModelVersion)
    → is_at_stage name stage_production (switched name version row) ≡ true
    → IsServing name version (switched name version row)
switched-IsServing name version row h =
    let d : ModelVersion = demoted name row in
    elim (Bool-cases (is_version name version d)) [
      | inl t ↦ rw t (record {
        of_model = (version_of name version d t).0;
        is_deployed = (version_of name version d t).1;
        in_production = refl;
        full_traffic = refl;
      })
      | inr f ↦
          let below = rw f at h in
          let both : (d.model_name ≡ name) × (d.stage ≡ stage_production) =
            at_stage_iff name stage_production d below in
          absurd
            ((demoted_stage name row both.1).1 (sym (demoted-SameKey name row).same_model ∙ both.0))
    ]

-- Once a demoted row is the version to deploy, the switched rows have a row in production, and the
-- first of them serves that version.
IsServing-head :
    (name version : String) (rows : List ModelVersion)
    → eqb (length (keep (is_version name version) (map (demoted name) rows))) 0 ≡ false
    → (row : ModelVersion) × (head?
          (keep (is_at_stage name stage_production) (map (switched name version) rows))
        ≡ some row)
      × IsServing name version row
unfolding keep
IsServing-head name version [] h = absurd (ground arith)
IsServing-head name version (row ∷ rows) h =
    elim (Bool-cases (is_at_stage name stage_production (switched name version row))) [
      | inl t ↦ rw t (switched name version row, refl, switched-IsServing name version row t)
      | inr f ↦ rw f (IsServing-head name version rows (later f))
    ]
  where
    later :
        is_at_stage name stage_production (switched name version row) ≡ false
        → eqb (length (keep (is_version name version) (map (demoted name) rows))) 0 ≡ false
    later f = elim (Bool-cases (is_version name version (demoted name row))) [
      | inl t ↦ let p = switched_promoted name version row t in absurd (cc)
      | inr g ↦ rw g at h
    ]

attempt_ok {ℓ} :
    {A : Type ℓ} (o : Option Fault) (m : Result A) (r : A) → (attempt o >> m) ≡ ok r → m ≡ ok r
attempt_ok none m r h = h
attempt_ok (some (refused e)) m r h = absurd (cc)
attempt_ok (some (lost e)) m r h = absurd (cc)

found_ok {ℓ} :
    {A : Type ℓ} (n : ℕ) (m : Result A) (r : A)
    → (found n >> m) ≡ ok r
    → (eqb n 0 ≡ false) × (m ≡ ok r)
found_ok n m r h = elim (Bool-cases (eqb n 0)) [
  | inl t ↦ let k = rw t at h in absurd (cc)
  | inr f ↦ (f, rw f at h)
]

settle_ok {ℓ} :
    {A : Type ℓ} (db : Db) (m : Result (Result A × Db)) (a : A)
    → (settle db m).0 ≡ ok a
    → m ≡ ok (ok a, (settle db m).1)
settle_ok db (ok (r, db')) a h = ap (λ x. ok (x, db')) h
settle_ok db (err _) a h = absurd (cc)

ok-second :
    {x y : Db} → ◌≡◌ {A = Result (Result (Unit {0}) × Db)} (ok (ok tt, x)) (ok (ok tt, y)) → x ≡ y
ok-second h = cc

lost-second :
    {x y : Db} {e : Error} {X : Type 0}
    → ◌≡◌ {A = Result (Result (Unit {0}) × Db)} (ok (err e, x)) (ok (ok tt, y))
    → X
lost-second h = absurd (cc)

executed_ok :
    (o : Option Fault) (x y : Db)
    → ◌≡◌ {A = Result (Result (Unit {0}) × Db)} (executed o (ok tt) x) (ok (ok tt, y))
    → x ≡ y
executed_ok none x y h = ok-second h
executed_ok (some (refused e)) x y h = absurd (cc)
executed_ok (some (lost e)) x y h = lost-second h

-- What a deployment that succeeds has found, and what it leaves.
pub deploy_ok :
    (faults : Faults) (now : Time) (name version reason : String) (db : Db)
    → (deploy faults now name version reason db).0 ≡ ok tt
    → (eqb
          (affected
            (is_version name version)
            (update (is_at_stage name stage_production) archive db))
          0
        ≡ false)
      × ((deploy faults now name version reason db).1
          ≡ record_event now name version "deploy" reason (switch name version db))
unfolding deploy
deploy_ok faults now name version reason db h =
    let ran = settle_ok db _ tt h in
    let r : Result (Unit {0}) × Db = (ok tt, (deploy faults now name version reason db).1) in
    let at_2 =
      attempt_ok (faults 2) _ r (attempt_ok (faults 1) _ r (attempt_ok (faults 0) _ r ran)) in
    let seen = found_ok _ _ r at_2 in
    let last = executed_ok (faults 4) _ _ (attempt_ok (faults 3) _ r seen.1) in (seen.0, sym last)

-- After a deployment that succeeds, the model's production query answers the version deployed, with
-- all of the traffic.
pub production-deploy :
    (faults : Faults) (now : Time) (name version reason : String) (db : Db)
    → (deploy faults now name version reason db).0 ≡ ok tt
    → (row : ModelVersion) × (production
          (λ _. none)
          name
          (deploy faults now name version reason db).1
        ≡ ok row)
      × IsServing name version row
unfolding production record_event update affected
production-deploy faults now name version reason db h =
    let done = deploy_ok faults now name version reason db h in
    let serving = IsServing-head name version db.versions done.0 in
    (serving.0, rw (done.1) (rw map-map (rw (serving.1) refl)), serving.2)
