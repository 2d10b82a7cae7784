-- ===== src/Loadtest/Tallies.antt =====
-- The loop of the load test that counts the results.
use mathlib.Core.List.{append-nil, append_assoc}
use distributed_ml_inference.Prelude.{
  ℕ, suc, ◌+◌, ◌^◌, ◌<◌, pos, add64, ◌+ℤ◌, wrap64, not, Bool-cases, List, [], ◌∷◌, ◌++◌, map,
  length, keep, ◌≡◌, refl, sym, ap, ◌∙◌, inl, inr, arith,
}
use distributed_ml_inference.Models.{Duration}
use distributed_ml_inference.Loadtest.{Result, Tally, tally_from}

abbrev pub latencies_of : List Result → List Duration
latencies_of results = map (λ r. r.latency) results

pub length-latencies_of : (results : List Result) → length (latencies_of results) ≡ length results
length-latencies_of [] = refl
length-latencies_of (r ∷ results) = ap suc (length-latencies_of results)

-- How many of the results are good, and how many are not.
abbrev pub good : List Result → ℕ
good results = length (keep (λ r. r.ok) results)

abbrev pub bad : List Result → ℕ
bad results = length (keep (λ r. not r.ok) results)

pub good-bad : (results : List Result) → good results + bad results ≡ length results
unfolding keep
good-bad [] = refl
good-bad (r ∷ results) = elim (Bool-cases r.ok) [
  | inl t ↦ rw t (omega (arith, good-bad results))
  | inr f ↦ rw f (omega (arith, good-bad results))
]

-- What a tally holds: the latencies, and how many results were good and bad.
pub record Tallied (t : Tally) (before : List Duration) (n m : ℕ) : Type 0 where
  pub latencies : t.latencies ≡ before
  pub oks : t.ok_count ≡ pos n
  pub errs : t.err_count ≡ pos m

add_one : (n : ℕ) → suc n < 2 ^ 63 → add64 (pos n) (pos 1) ≡ pos (suc n)
unfolding ◌+ℤ◌ wrap64
add_one n h = ground arith

tally_from-Tallied :
    (results : List Result) (t : Tally) (before : List Duration) (oks errs : ℕ)
    → oks + errs + length results < 2 ^ 63
    → Tallied t before oks errs
    → Tallied
        (tally_from t results)
        (before ++ latencies_of results)
        (oks + good results)
        (errs + bad results)
unfolding tally_from keep
tally_from-Tallied [] t before oks errs h is = record {
  latencies = is.latencies ∙ sym (append-nil before);
  oks = is.oks ∙ ap pos (omega arith);
  errs = is.errs ∙ ap pos (omega arith);
}
tally_from-Tallied (r ∷ results) t before oks errs h is =
    let appended : t.latencies ++ r.latency ∷ [] ≡ before ++ r.latency ∷ [] =
      ap (λ l. l ++ r.latency ∷ []) is.latencies in
    elim (Bool-cases r.ok) [
      | inl ok ↦
          let next : add64 t.ok_count (pos 1) ≡ pos (suc oks) =
            ap (λ z. add64 z (pos 1)) is.oks ∙ add_one oks (omega arith) in
          let rest =
            tally_from-Tallied results
              (record t {
                latencies = t.latencies ++ r.latency ∷ [];
                ok_count = add64 t.ok_count (pos 1);
              })
              (before ++ r.latency ∷ []) (suc oks) errs (omega arith)
              (record { latencies = appended; oks = next; errs = is.errs }) in
          rw ok (record {
            latencies =
                rest.latencies ∙ append_assoc before (r.latency ∷ []) (latencies_of results);
            oks = rest.oks ∙ ap pos (omega arith);
            errs = rest.errs;
          })
      | inr failed ↦
          let next : add64 t.err_count (pos 1) ≡ pos (suc errs) =
            ap (λ z. add64 z (pos 1)) is.errs ∙ add_one errs (omega arith) in
          let rest =
            tally_from-Tallied results
              (record t {
                latencies = t.latencies ++ r.latency ∷ [];
                err_count = add64 t.err_count (pos 1);
              })
              (before ++ r.latency ∷ []) oks (suc errs) (omega arith)
              (record { latencies = appended; oks = is.oks; errs = next }) in
          rw failed (record {
            latencies =
                rest.latencies ∙ append_assoc before (r.latency ∷ []) (latencies_of results);
            oks = rest.oks;
            errs = rest.errs ∙ ap pos (omega arith);
          })
    ]

abbrev pub fresh : Tally
fresh = record { latencies = []; ok_count = pos 0; err_count = pos 0 }

pub tallied :
    (results : List Result)
    → length results < 2 ^ 63
    → Tallied (tally_from fresh results) (latencies_of results) (good results) (bad results)
tallied results h =
    let t =
      tally_from-Tallied results fresh [] 0 0 (omega arith)
        (record { latencies = refl; oks = refl; errs = refl }) in
    record {
      latencies = t.latencies;
      oks = t.oks ∙ ap pos (omega arith);
      errs = t.errs ∙ ap pos (omega arith);
    }
