-- ===== src/Deployer/Handler/Errors.antt =====
-- The error responses of http.go, and what they leave of the tables.
use distributed_ml_inference.Prelude.{
  ℕ, ℤ, pos, ltb, eqb, ltb_ℤ, String, Bool, true, false, ◌||◌, Bool-cases, Option-cases, Option,
  none, some, List, [], ◌∷◌, map, keep, length, ◌==◌, ◌≡◌, refl, ap, ◌⊎◌, inl, inr, if◌then◌else◌,
  arith,
}
use distributed_ml_inference.Models.{Time, ModelVersion, stage_production}
use distributed_ml_inference.Deployer.Registry.{
  Db, Result, ok, err, Error, not_found, failure, Fault, refused, lost, Faults, attempt, marshals,
  found, executed, settle, ◌>>=◌, ◌>>◌, some_row, update, affected, register, deploy, rollback,
  set_traffic, is_version, is_at_stage, archive, last_archived,
}
use distributed_ml_inference.Deployer.Handler.{
  Host, Response, Decoded, RegisterRequest, DeployRequest, TrafficRequest, handle_register,
  handle_deploy, handle_rollback, handle_traffic, failed, respond, respond_500, registered,
  version_to_register, write_json, deployed, rolled_back, updated,
}
use distributed_ml_inference.Deployer.Handler.Requests.{
  Call, registers, deploys, rolls_back, splits, serve,
}

-- Some statement was carried out and its answer was lost.
abbrev pub IsLost : Faults → Type 0
IsLost faults = (n : ℕ) × (e : String) × (faults n ≡ some (lost e))

no_error {ℓ} : {A : Type ℓ} {a : A} {e : Error} {X : Type 0} → ◌≡◌ {A = Result A} (ok a) (err e) → X
no_error h = absurd (cc)

module _ (faults : Faults) (db : Db) where
  -- What a call returns, and the tables after it: an error leaves the tables as they were, or is the
  -- database's on a statement that was carried out.
  record Fails {ℓ} {A : Type ℓ} (out : Result A × Db) : Type ℓ where
    fails :
        (e : Error)
        → out.0 ≡ err e
        → (out.1 ≡ db) ⊎ (IsLost faults × ((text : String) × (e ≡ failure text)))

  refused-Fails {ℓ} : {A : Type ℓ} (e : Error) → Fails {A = A} (settle db (err e))
  refused-Fails e = record { fails = λ _ _. inl refl }

  attempt-Fails {ℓ} :
      {A : Type ℓ} (o : Option Fault) (m : Result (Result A × Db))
      → Fails (settle db m)
      → Fails (settle db (attempt o >> m))
  attempt-Fails none m h = h
  attempt-Fails (some (refused t)) m h = refused-Fails (failure t)
  attempt-Fails (some (lost t)) m h = refused-Fails (failure t)

  marshals-Fails {ℓ} :
      {A : Type ℓ} (o : Option String) (m : Result (Result A × Db))
      → Fails (settle db m)
      → Fails (settle db (marshals o >> m))
  marshals-Fails none m h = h
  marshals-Fails (some t) m h = refused-Fails (failure t)

  found-Fails {ℓ} :
      {A : Type ℓ} (n : ℕ) (m : Result (Result A × Db))
      → Fails (settle db m)
      → Fails (settle db (found n >> m))
  found-Fails n m h = elim (Bool-cases (eqb n 0)) [
    | inl t ↦ rw t (refused-Fails not_found)
    | inr f ↦ rw f h
  ]

  some_row-Fails {ℓ} :
      {A : Type ℓ} (o : Option ModelVersion) (k : ModelVersion → Result (Result A × Db))
      → ((row : ModelVersion) → Fails (settle db (k row)))
      → Fails (settle db (some_row (λ rows. rows) o >>= k))
  some_row-Fails none k h = refused-Fails not_found
  some_row-Fails (some row) k h = h row

  executed-Fails {ℓ} :
      {A : Type ℓ} (n : ℕ) (o : Option Fault) (r : Result A) (db' : Db)
      → faults n ≡ o
      → ((e : Error) → r ≡ err e → db' ≡ db)
      → Fails (settle db (executed o r db'))
  executed-Fails n none r db' is h = record { fails = λ e k. inl (h e k) }
  executed-Fails n (some (refused t)) r db' is h = refused-Fails (failure t)
  executed-Fails {A = A} n (some (lost t)) r db' is h = record {
    fails = λ e k. inr ((n, t, is), (t, same_error k));
  }
    where
      same_error : {e : Error} → ◌≡◌ {A = Result A} (err (failure t)) (err e) → e ≡ failure t
      same_error k = cc

  -- What a request that is answered with an error leaves.
  abbrev pub Left : Response × Db → Type 0
  Left (response, db') = (db' ≡ db) ⊎ (IsLost faults × (response.status ≡ 500))

  respond-Left {ℓ} :
      {A : Type ℓ} (k : A → Response) (out : Result A × Db)
      → ((a : A) → ltb (k a).status 400 ≡ true)
      → Fails out
      → ltb (respond k out.0).status 400 ≡ false
      → Left (respond k out.0, out.1)
  respond-Left k (ok a, db') good f h = let g = good a in absurd (ground arith)
  respond-Left k (err e, db') good f h = elim (f.fails e refl) [
    | inl same ↦ inl same
    | inr (l, (text, t)) ↦ inr (l, rw t refl)
  ]

  respond_500-Left {ℓ} :
      {A : Type ℓ} (k : A → Response) (out : Result A × Db)
      → ((a : A) → ltb (k a).status 400 ≡ true)
      → Fails out
      → ltb (respond_500 k out.0).status 400 ≡ false
      → Left (respond_500 k out.0, out.1)
  respond_500-Left k (ok a, db') good f h = let g = good a in absurd (ground arith)
  respond_500-Left k (err e, db') good f h = elim (f.fails e refl) [
    | inl same ↦ inl same
    | inr (l, _) ↦ inr (l, refl)
  ]

-- An update of no row changes none.
update_none :
    (p : ModelVersion → Bool) (f : ModelVersion → ModelVersion) (rows : List ModelVersion)
    → eqb (length (keep p rows)) 0 ≡ true
    → map (λ row. if p row then f row else row) rows ≡ rows
unfolding keep
update_none p f [] h = refl
update_none p f (row ∷ rows) h = elim (Bool-cases (p row)) [
  | inl t ↦ let clash = rw t at h in absurd (ground arith)
  | inr g ↦ rw g (ap (λ xs. row ∷ xs) (update_none p f rows (rw g at h)))
]

module _ (fs : Faults) (now : Time) (db : Db) where
  register-Fails :
      (marshal_error : Option String) (mv : ModelVersion)
      → Fails fs db (register marshal_error fs now mv db)
  unfolding register
  register-Fails marshal_error mv =
      marshals-Fails fs db marshal_error _
        (executed-Fails fs db 0 (fs 0) (ok tt) _ refl (λ e k. no_error k))

  deploy-Fails : (name version reason : String) → Fails fs db (deploy fs now name version reason db)
  unfolding deploy
  deploy-Fails name version reason = attempt-Fails fs db (fs 0) _ (
      attempt-Fails fs db (fs 1) _ (
        attempt-Fails fs db (fs 2) _ (
          found-Fails fs db
            (affected (is_version name version)
              (update (is_at_stage name stage_production) archive db))
            _
            (attempt-Fails fs db (fs 3) _
              (executed-Fails fs db 4 (fs 4) (ok tt) _ refl (λ e k. no_error k))))))

  rollback-Fails :
      (newest_first : List ModelVersion → List ModelVersion) (name reason : String)
      → Fails fs db (rollback newest_first fs now name reason db)
  unfolding rollback
  rollback-Fails newest_first name reason = attempt-Fails fs db (fs 0) _ (
      attempt-Fails fs db (fs 1) _ (
        some_row-Fails fs db (last_archived newest_first name db) _ (λ prev.
          attempt-Fails fs db (fs 2) _ (
            attempt-Fails fs db (fs 3) _ (
              attempt-Fails fs db (fs 4) _
                (executed-Fails fs db 5 (fs 5) (ok prev.version) _ refl (λ e k. no_error k)))))))

  set_traffic-Fails :
      (name version : String) (pct : ℤ) → Fails fs db (set_traffic fs name version pct db)
  unfolding set_traffic update affected
  set_traffic-Fails name version pct =
      executed-Fails fs db 0 (fs 0) (found (affected (is_version name version) db)) _ refl
        unaffected
    where
      unaffected :
          (e : Error)
          → found (affected (is_version name version) db) ≡ err e
          → update (is_version name version) (λ row. record row { traffic_pct = pct }) db ≡ db
      unaffected e k = elim (Bool-cases (eqb (affected (is_version name version) db) 0)) [
        | inl t ↦
            ap (λ rows. record db { versions = rows })
              (update_none (is_version name version) (λ row. record row { traffic_pct = pct })
                db.versions t)
        | inr f ↦ no_error (rw f at k)
      ]

handle_register-Left :
    (host : Host) (d : Decoded RegisterRequest) (db : Db)
    → ltb (handle_register host d db).0.status 400 ≡ false
    → Left host.faults db (handle_register host d db)
unfolding handle_register
handle_register-Left host d db h =
    let req = d.value in
    elim (Option-cases d.error) [
      | inr (e, t) ↦ rw t (inl refl)
      | inl f ↦
          let reached = rw f at h in
          rw f
            (elim (Bool-cases
              (req.model_name == "" || req.version == "" || req.artifact_path == "")) [
                | inl t ↦ rw t (inl refl)
                | inr g ↦
                    let ran = rw g at reached in
                    let out =
                      register host.marshal_error host.faults host.now (version_to_register req)
                        db in
                    rw g (
                      respond_500-Left host.faults db (λ _. write_json 201 registered) out
                        (λ a. refl)
                        (register-Fails host.faults host.now db host.marshal_error
                          (version_to_register req))
                        ran)
              ])
    ]

handle_deploy-Left :
    (host : Host) (name : String) (d : Decoded DeployRequest) (db : Db)
    → ltb (handle_deploy host name d db).0.status 400 ≡ false
    → Left host.faults db (handle_deploy host name d db)
unfolding handle_deploy
handle_deploy-Left host name d db h = elim (Bool-cases (failed d || d.value.version == "")) [
  | inl t ↦ rw t (inl refl)
  | inr f ↦
      let ran = rw f at h in
      rw f (
        respond-Left host.faults db (λ _. write_json 200 (deployed d.value.version))
          (deploy host.faults host.now name d.value.version d.value.reason db) (λ a. refl)
          (deploy-Fails host.faults host.now db name d.value.version d.value.reason) ran)
]

handle_traffic-Left :
    (host : Host) (name : String) (d : Decoded TrafficRequest) (db : Db)
    → ltb (handle_traffic host name d db).0.status 400 ≡ false
    → Left host.faults db (handle_traffic host name d db)
unfolding handle_traffic
handle_traffic-Left host name d db h =
    let req = d.value in
    elim (Bool-cases (failed d || req.version == "")) [
      | inl t ↦ rw t (inl refl)
      | inr f ↦
          let ran = rw f at h in
          rw f
            (elim (Bool-cases (ltb_ℤ req.traffic_pct (pos 0) || ltb_ℤ (pos 100) req.traffic_pct)) [
              | inl t ↦ rw t (inl refl)
              | inr g ↦
                  let ran' = rw g at ran in
                  rw g (
                    respond-Left host.faults db
                      (λ _. write_json 200 (updated req.version req.traffic_pct))
                      (set_traffic host.faults name req.version req.traffic_pct db) (λ a. refl)
                      (set_traffic-Fails host.faults host.now db name req.version req.traffic_pct)
                      ran')
            ])
    ]

-- A request that is answered with a status of 400 or more leaves the tables as they were, unless the
-- status is 500 and the database carried out a statement whose answer was lost.
pub serve_error_unchanged :
    (newest_first : List ModelVersion → List ModelVersion) (host : Host) (call : Call) (db : Db)
    → ltb (serve newest_first host call db).0.status 400 ≡ false
    → Left host.faults db (serve newest_first host call db)
unfolding handle_rollback
serve_error_unchanged newest_first host (registers d) db h = handle_register-Left host d db h
serve_error_unchanged newest_first host (deploys name d) db h = handle_deploy-Left host name d db h
serve_error_unchanged newest_first host (rolls_back name d) db h =
    respond-Left host.faults db (λ prev. write_json 200 (rolled_back prev)) _ (λ a. refl)
      (rollback-Fails host.faults host.now db newest_first name d.value.reason) h
serve_error_unchanged newest_first host (splits name d) db h = handle_traffic-Left host name d db h
