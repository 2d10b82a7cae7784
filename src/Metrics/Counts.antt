-- ===== src/Metrics/Counts.antt =====
-- Middleware of metrics.go: what the metrics say, however the requests interleave.
use distributed_ml_inference.Prelude.{
  ℕ, suc, leb, ℤ, pos, ◌+ℤ◌, ◌-ℤ◌, String, Bool, true, false, ◌&&◌, Bool-cases, List, [], ◌∷◌, ◌==◌,
  ◌≡◌, refl, inl, inr, if◌then◌else◌, arith,
}
use distributed_ml_inference.Models.{Duration}
use distributed_ml_inference.Metrics.{
  Prometheus, Set, ResponseWriter, StatusRecorder, status_recorder, new_set, begin, finish,
  middleware,
}

abbrev pub same_labels : List String → List String → Bool
same_labels [] [] = true
same_labels [] (_ ∷ _) = false
same_labels (_ ∷ _) [] = false
same_labels (k ∷ ks) (l ∷ ls) = k == l && same_labels ks ls

abbrev pub number {ℓ} : {A : Type ℓ} → (A → Bool) → List A → ℕ
number p [] = 0
number p (x ∷ xs) = if p x then suc (number p xs) else number p xs

-- What can be read off Prometheus' metrics: the value under some labels, and a gauge's value.
pub record Readings {C H G : Type 0} (prometheus : Prometheus C H G) : Type 0 where
  pub value : List String → C → ℕ
  pub level : G → ℤ
  pub new_value :
      (namespace name help : String) (labels ls : List String)
      → value ls (prometheus.new_counter_vec namespace name help labels) ≡ 0
  pub new_level :
      (namespace name help : String) → level (prometheus.new_gauge namespace name help) ≡ pos 0
  pub value-count :
      (ks ls : List String) (c : C)
      → value ls (prometheus.count ks c)
        ≡ (if same_labels ks ls then suc (value ls c) else value ls c)
  pub level-inc : (g : G) → level (prometheus.inc g) ≡ level g +ℤ pos 1
  pub level-dec : (g : G) → level (prometheus.dec g) ≡ level g -ℤ pos 1

-- The calls that a handler makes of its writer.
pub data Call (B : Type 0) : Type 0 where
  header : ℕ → Call B
  body : B → Call B

abbrev pub write_all : {B W : Type 0} → ResponseWriter B W → List (Call B) → W → W
write_all writer [] w = w
write_all writer (header code ∷ calls) w = write_all writer calls (writer.write_header code w)
write_all writer (body b ∷ calls) w = write_all writer calls (writer.write b w)

-- The last status that is written, or the one given if none is.
abbrev pub last_status : {B : Type 0} → ℕ → List (Call B) → ℕ
last_status before [] = before
last_status before (header code ∷ calls) = last_status code calls
last_status before (body _ ∷ calls) = last_status before calls

-- A handler cannot tell the recorder from the writer: the writer gets the same calls, and the
-- recorder holds the last status that was written.
pub write_all-recorder :
    {B W : Type 0} (writer : ResponseWriter B W) (calls : List (Call B)) (r : StatusRecorder W)
    → write_all (status_recorder writer) calls r ≡ record {
      response_writer = write_all writer calls r.response_writer;
      status = last_status r.status calls;
    }
unfolding status_recorder
write_all-recorder writer [] r = refl
write_all-recorder writer (header code ∷ calls) r = write_all-recorder writer calls _
write_all-recorder writer (body b ∷ calls) r = write_all-recorder writer calls _

pub record Served : Type 0 where
  pub route : String
  pub method : String
  pub elapsed : Duration
  pub status : ℕ

module _ {C H G : Type 0} (prometheus : Prometheus C H G) where
  -- The metrics of a service after some requests began and ended, in any order: how many are
  -- open, and those that were served, the last one first.
  pub data Runs (service : String) : Set C H G → ℕ → List Served → Type 0 where
    fresh : Runs service (new_set prometheus service) 0 []
    began :
        {s : Set C H G} {n : ℕ} {served : List Served}
        → Runs service s n served
        → Runs service (begin prometheus s) (suc n) served
    ended :
        {s : Set C H G} {n : ℕ} {served : List Served} (r : Served)
        → Runs service s (suc n) served
        → Runs service (finish prometheus r.route r.method r.elapsed r.status s) n (r ∷ served)

  -- The labels of `RequestsTotal` and of `ErrorsTotal` that a request counts under.
  abbrev pub counts_as : List String → Served → Bool
  counts_as ls r = same_labels (r.route ∷ r.method ∷ prometheus.itoa r.status ∷ []) ls

  abbrev pub errs_as : List String → Served → Bool
  errs_as ls r = leb 500 r.status && same_labels (r.route ∷ "server_error" ∷ []) ls

  -- A handler that makes some calls of its writer, while the other requests bring the metrics to a
  -- state with one more request open, is answered for as if it had the writer itself, and the
  -- metrics then count its request, with the last status it wrote, or 200 where it wrote none.
  pub middleware-Runs :
      {B W S : Type 0} (writer : ResponseWriter B W)
      (next : StatusRecorder W → Set C H G × S → StatusRecorder W × (Set C H G × S))
      (calls : List (Call B)) (w : W) (s s' : Set C H G) (state state' : S) {service : String}
      {n : ℕ} {served : List Served} (route method : String) (elapsed : Duration)
      → next (record { response_writer = w; status = 200 }) (begin prometheus s, state) ≡ (
        write_all (status_recorder writer) calls (record { response_writer = w; status = 200 }),
        (s', state'),
      )
      → Runs service s' (suc n) served
      → let r : Served = record {
        route = route;
        method = method;
        elapsed = elapsed;
        status = last_status 200 calls;
      } in
        let after = middleware prometheus route method elapsed next w (s, state) in
        (after.0 ≡ write_all writer calls w)
        × (after.1.1 ≡ state')
        × Runs service after.1.0 n (r ∷ served)
  unfolding middleware
  middleware-Runs writer next calls w s s' state state' route method elapsed ran runs = rw ran (
      rw (write_all-recorder writer calls (record { response_writer = w; status = 200 }))
        (refl, refl, ended _ runs))

  module _ (readings : Readings prometheus) where
    open readings use {value, level, new_value, new_level, value-count, level-inc, level-dec}

    one_down : (n : ℕ) → pos (suc n) -ℤ pos 1 ≡ pos n
    unfolding ◌-ℤ◌
    one_down n = ground arith

    one_up : (n : ℕ) → pos n +ℤ pos 1 ≡ pos (suc n)
    unfolding ◌+ℤ◌
    one_up n = ground arith

    -- However requests interleave, and with metrics that read as Prometheus documents them, the
    -- gauge is the number of those that are open, each finished request is counted once under
    -- its route, method and status, and once as a server error of its route if and only if its
    -- status is 500 or more.
    pub runs-counts :
        {service : String} {s : Set C H G} {n : ℕ} {served : List Served}
        → Runs service s n served
        → (ls : List String)
        → (level s.in_flight ≡ pos n)
          × (value ls s.requests_total ≡ number (counts_as ls) served)
          × (value ls s.errors_total ≡ number (errs_as ls) served)
    unfolding new_set begin finish
    runs-counts fresh ls = (new_level _ _ _, new_value _ _ _ _ _, new_value _ _ _ _ _)
    runs-counts (began {s} {n} runs) ls =
        let (open_now, requests, errors) = runs-counts runs ls in
        (rw (level-inc s.in_flight) (rw open_now (one_up n)), requests, errors)
    runs-counts (ended {s} {n} r runs) ls =
        let (open_now, requests, errors) = runs-counts runs ls in
        (
          rw (level-dec s.in_flight) (rw open_now (one_down n)),
          rw (value-count (r.route ∷ r.method ∷ prometheus.itoa r.status ∷ []) ls s.requests_total)
              (rw requests refl),
          elim (Bool-cases (leb 500 r.status)) [
            | inl t ↦ rw t (
                rw (value-count (r.route ∷ "server_error" ∷ []) ls s.errors_total) (rw errors refl))
            | inr f ↦ rw f errors
          ],
        )
