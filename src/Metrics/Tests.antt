-- ===== src/Metrics/Tests.antt =====
-- Tests of the metrics, with counters that list the labels they were increased under.
use distributed_ml_inference.Prelude.{
  ℕ, suc, leb, ℤ, pos, ◌+ℤ◌, ◌-ℤ◌, String, true, false, List, [], ◌∷◌, ◌≡◌, refl,
}
use distributed_ml_inference.Metrics.{
  Prometheus, Set, ResponseWriter, StatusRecorder, status_recorder, new_set, begin, finish,
  middleware,
}
use distributed_ml_inference.Metrics.Counts.{
  same_labels, number, Readings, Call, header, body, write_all, Served, Runs, fresh, began, ended,
  runs-counts,
}

abbrev Counter : Type 0
Counter = List (List String)

abbrev prometheus : Prometheus Counter Counter ℤ
prometheus = record {
  new_counter_vec = λ namespace name help labels. [];
  new_histogram_vec = λ namespace name help buckets labels. [];
  new_gauge = λ namespace name help. pos 0;
  count = λ ls c. ls ∷ c;
  observe = λ ls v h. ls ∷ h;
  inc = λ g. g +ℤ pos 1;
  dec = λ g. g -ℤ pos 1;
  seconds = λ d. 0;
  itoa = λ code. if_error code;
}
  where
    if_error : ℕ → String
    if_error code = elim (leb 500 code) [ true ↦ "503" | false ↦ "200" ]

abbrev readings : Readings prometheus
readings = record {
  value = λ ls c. number (λ ks. same_labels ks ls) c;
  level = λ g. g;
  new_value = λ namespace name help labels ls. refl;
  new_level = λ namespace name help. refl;
  value-count = λ ks ls c. refl;
  level-inc = λ g. refl;
  level-dec = λ g. refl;
}

abbrev writer : ResponseWriter String (List String)
writer = record { write_header = λ code w. "header" ∷ w; write = λ b w. b ∷ w }

abbrev start : Set Counter Counter ℤ
start = new_set prometheus "gateway"

-- While a first request is served, a second begins, fails and ends.
abbrev second : Served
second = record { route = "/v1/jobs"; method = "POST"; elapsed = pos 7; status = 503 }

abbrev calls : List (Call String)
calls = header 503 ∷ body "{}" ∷ []

abbrev during : Set Counter Counter ℤ
during = finish prometheus "/v1/jobs" "POST" (pos 7) 503 (begin prometheus (begin prometheus start))

abbrev during_Runs : Runs prometheus "gateway" during 1 (second ∷ [])
during_Runs = ended second (began (began fresh))

runs-counts_example :
    (during.in_flight ≡ pos 1)
    × (number (λ ks. same_labels ks ("/v1/jobs" ∷ "POST" ∷ "503" ∷ [])) during.requests_total ≡ 1)
    × (number (λ ks. same_labels ks ("/v1/jobs" ∷ "POST" ∷ "503" ∷ [])) during.errors_total ≡ 0)
runs-counts_example = runs-counts prometheus readings during_Runs ("/v1/jobs" ∷ "POST" ∷ "503" ∷ [])

abbrev next :
    StatusRecorder (List String)
    → Set Counter Counter ℤ × ℕ
    → StatusRecorder (List String) × (Set Counter Counter ℤ × ℕ)
next rec (s, state) = (
  write_all (status_recorder writer) calls rec,
  (finish prometheus "/v1/jobs" "POST" (pos 7) 503 (begin prometheus s), suc state),
)

abbrev after : List String × (Set Counter Counter ℤ × ℕ)
after = middleware prometheus "/v1/jobs" "POST" (pos 5) next [] (start, 0)
