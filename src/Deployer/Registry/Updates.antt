-- ===== src/Deployer/Registry/Updates.antt =====
-- Deploy and Rollback of registry.go: what they keep of the tables on every path, errors included.
use distributed_ml_inference.Prelude.{
  ℕ, String, eqb, Option, none, some, Bool-cases, List, inl, inr,
}
use distributed_ml_inference.Models.{Time, ModelVersion}
use distributed_ml_inference.Deployer.Registry.{
  Db, Result, ok, err, Fault, refused, lost, Faults, attempt, marshals, executed, found, settle,
  ◌>>=◌, ◌>>◌, deploy, rollback, last_archived, some_row, record_event,
}
use distributed_ml_inference.Deployer.Registry.Consistent.{IsConsistent, switch-IsConsistent}

-- A postcondition of a result, which an error meets.
abbrev pub Ensures {ℓ} : {A : Type ℓ} → (A → Type 0) → Result A → Type 0
Ensures Q (ok a) = Q a
Ensures Q (err e) = Unit

pub attempt-Ensures {ℓ} :
    {A : Type ℓ} (Q : A → Type 0) (o : Option Fault) (m : Result A)
    → Ensures Q m
    → Ensures Q (attempt o >> m)
attempt-Ensures Q none m h = h
attempt-Ensures Q (some (refused e)) m h = tt
attempt-Ensures Q (some (lost e)) m h = tt

pub marshals-Ensures {ℓ} :
    {A : Type ℓ} (Q : A → Type 0) (o : Option String) (m : Result A)
    → Ensures Q m
    → Ensures Q (marshals o >> m)
marshals-Ensures Q none m h = h
marshals-Ensures Q (some e) m h = tt

pub executed-Ensures {ℓ} :
    {A : Type ℓ} (P : Db → Type 0) (o : Option Fault) (r : Result A) (db : Db)
    → P db
    → Ensures (λ ended. P ended.1) (executed o r db)
executed-Ensures P none r db h = h
executed-Ensures P (some (refused e)) r db h = tt
executed-Ensures P (some (lost e)) r db h = h

pub found-Ensures {ℓ} :
    {A : Type ℓ} (Q : A → Type 0) (n : ℕ) (m : Result A) → Ensures Q m → Ensures Q (found n >> m)
found-Ensures Q n m h = elim (Bool-cases (eqb n 0)) [ inl t ↦ rw t tt | inr f ↦ rw f h ]

some_row-Ensures {ℓ} :
    {A : Type ℓ} (Q : A → Type 0) (o : Option ModelVersion) (k : ModelVersion → Result A)
    → ((row : ModelVersion) → Ensures Q (k row))
    → Ensures Q (some_row (λ rows. rows) o >>= k)
some_row-Ensures Q none k h = tt
some_row-Ensures Q (some row) k h = h row

pub settle_keeps {ℓ} :
    {A : Type ℓ} (P : Db → Type 0) (db : Db) (m : Result (Result A × Db))
    → P db
    → Ensures (λ r. P r.1) m
    → P (settle db m).1
settle_keeps P db (ok r) h k = k
settle_keeps P db (err e) h k = h

record_event-IsConsistent :
    (now : Time) (name version action reason : String) (db : Db)
    → IsConsistent db
    → IsConsistent (record_event now name version action reason db)
unfolding record_event
record_event-IsConsistent now name version action reason db h = record {
  rows = h.rows;
  traffic = h.traffic;
}

-- `Deploy` leaves consistent tables consistent, whatever statements end in an error.
pub deploy-IsConsistent :
    (faults : Faults) (now : Time) (name version reason : String) (db : Db)
    → IsConsistent db
    → IsConsistent (deploy faults now name version reason db).1
unfolding deploy
deploy-IsConsistent faults now name version reason db h =
    let Q = λ (r : Result (Unit {0}) × Db). IsConsistent r.1 in
    settle_keeps IsConsistent db _ h (
      attempt-Ensures Q (faults 0) _ (
        attempt-Ensures Q (faults 1) _ (
          attempt-Ensures Q (faults 2) _ (
            found-Ensures Q _ _ (
              attempt-Ensures Q (faults 3) _ (
                executed-Ensures IsConsistent (faults 4) _ _ (
                  record_event-IsConsistent now name version "deploy" reason _
                    (switch-IsConsistent name version db h))))))))

module _ (newest_first : List ModelVersion → List ModelVersion) where
  pub rollback-IsConsistent :
      (faults : Faults) (now : Time) (name reason : String) (db : Db)
      → IsConsistent db
      → IsConsistent (rollback newest_first faults now name reason db).1
  unfolding rollback
  rollback-IsConsistent faults now name reason db h =
      let Q = λ (r : Result String × Db). IsConsistent r.1 in
      settle_keeps IsConsistent db _ h (
        attempt-Ensures Q (faults 0) _ (
          attempt-Ensures Q (faults 1) _ (
            some_row-Ensures Q (last_archived newest_first name db) _ (λ prev.
              attempt-Ensures Q (faults 2) _ (
                attempt-Ensures Q (faults 3) _ (
                  attempt-Ensures Q (faults 4) _ (
                    executed-Ensures IsConsistent (faults 5) _ _ (
                      record_event-IsConsistent now name prev.version "rollback" reason _
                        (switch-IsConsistent name prev.version db h)))))))))
