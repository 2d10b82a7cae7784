-- ===== src/Loadtest/Reports.antt =====
-- The report of the load test.
use distributed_ml_inference.Prelude.{
  ℕ, ◌+◌, ◌-◌, ◌*◌, ◌^◌, ◌≤◌, ◌<◌, pos, eqb_ℤ, leb_ℤ, sub64, true, false, some, List, length, sort,
  sort-Rearranged, length-Rearranged, ◌≡◌, refl, sym, ap, ◌∙◌, arith,
}
use distributed_ml_inference.Models.{F64, Duration}
use distributed_ml_inference.Fleet.Vehicle.{Floats}
use distributed_ml_inference.Loadtest.{
  Result, Flags, index, percentile, Tally, tally_from, Report, printed, report,
}
use distributed_ml_inference.Loadtest.Tallies.{
  latencies_of, length-latencies_of, good, bad, good-bad, Tallied, fresh, tallied,
}
use distributed_ml_inference.Loadtest.Percentiles.{
  last-HasRank, HasRank, HasRank-leb, rank_of, percentile-HasRank,
}

-- The percentiles of some results, whose latencies are counted in a list of their own.
percentile_of :
    (p : ℕ) (results : List Result) (latencies : List Duration)
    → latencies ≡ latencies_of results
    → 0 < length results
    → p * length results < 2 ^ 63
    → length results < 2 ^ 63
    → (v : Duration) × (percentile (sort leb_ℤ latencies) (pos p) ≡ some v)
      × HasRank (rank_of p (length results)) v (latencies_of results)
percentile_of p results latencies same h small fits =
    let size = length-latencies_of results in
    let (v, is, ranked) =
      percentile-HasRank p (latencies_of results) (rw size h) (rw size small) (rw size fits) in
    (v, ap (λ l. percentile (sort leb_ℤ l) (pos p)) same ∙ is, rw size at ranked)

greatest_of :
    (results : List Result) (latencies : List Duration)
    → latencies ≡ latencies_of results
    → 0 < length results
    → length results < 2 ^ 63
    → let sorted = sort leb_ℤ latencies in
      (v : Duration) × (index (sub64 (pos (length sorted)) (pos 1)) sorted ≡ some v)
      × HasRank (length results - 1) v (latencies_of results)
greatest_of results latencies same h fits =
    let size = length-latencies_of results in
    let (v, is, ranked) = last-HasRank (latencies_of results) (rw size h) (rw size fits) in
    (
      v,
      ap (λ l. index (sub64 (pos (length (sort leb_ℤ l))) (pos 1)) (sort leb_ℤ l)) same ∙ is,
      rw size at ranked,
    )

rank_50_95 : (n : ℕ) → 0 < n → rank_of 50 n ≤ rank_of 95 n
rank_50_95 n h = ground arith

rank_95_99 : (n : ℕ) → 0 < n → rank_of 95 n ≤ rank_of 99 n
rank_95_99 n h = ground arith

rank_last : (p n : ℕ) → 0 < n → rank_of p n ≤ n - 1
rank_last p n h = ground arith

-- A report has the number of the results, those that were good and those that were not, which
-- make up all of them, and three percentiles and a greatest latency that stand at their ranks among
-- the latencies, and so in order.
pub record Summarises (results : List Result) (r : Report) : Type 0 where
  total : r.total ≡ pos (length results)
  oks : r.ok_count ≡ pos (good results)
  errs : r.err_count ≡ pos (bad results)
  all : good results + bad results ≡ length results
  v50 : Duration
  v95 : Duration
  v99 : Duration
  greatest : Duration
  p50 : (r.p50 ≡ some v50) × HasRank (rank_of 50 (length results)) v50 (latencies_of results)
  p95 : (r.p95 ≡ some v95) × HasRank (rank_of 95 (length results)) v95 (latencies_of results)
  p99 : (r.p99 ≡ some v99) × HasRank (rank_of 99 (length results)) v99 (latencies_of results)
  max : (r.max ≡ some greatest) × HasRank (length results - 1) greatest (latencies_of results)
  ordered : (leb_ℤ v50 v95 ≡ true) × (leb_ℤ v95 v99 ≡ true) × (leb_ℤ v99 greatest ≡ true)

module _ (floats : Floats) (seconds : Duration → F64) (flags : Flags) where
  printed-Summarises :
      (results : List Result) (t : Tally)
      → 99 * length results < 2 ^ 63
      → 0 < length results
      → Tallied t (latencies_of results) (good results) (bad results)
      → Summarises results (printed floats seconds flags t)
  unfolding printed
  printed-Summarises results t h some_done is =
      let (a, a_is, a_rank) =
        percentile_of 50 results t.latencies is.latencies some_done (omega arith) (omega arith) in
      let (b, b_is, b_rank) =
        percentile_of 95 results t.latencies is.latencies some_done (omega arith) (omega arith) in
      let (c, c_is, c_rank) =
        percentile_of 99 results t.latencies is.latencies some_done h (omega arith) in
      let (d, d_is, d_rank) =
        greatest_of results t.latencies is.latencies some_done (omega arith) in
      let n = length results in
      let xs = latencies_of results in
      record {
        total = ap pos (
            sym (length-Rearranged (sort-Rearranged leb_ℤ t.latencies))
            ∙ ap length is.latencies
            ∙ length-latencies_of results);
        oks = is.oks;
        errs = is.errs;
        all = good-bad results;
        v50 = a;
        v95 = b;
        v99 = c;
        greatest = d;
        p50 = (a_is, a_rank);
        p95 = (b_is, b_rank);
        p99 = (c_is, c_rank);
        max = (d_is, d_rank);
        ordered = (
          HasRank-leb _ _ a b xs a_rank b_rank (rank_50_95 n some_done),
          HasRank-leb _ _ b c xs b_rank c_rank (rank_95_99 n some_done),
          HasRank-leb _ _ c d xs c_rank d_rank (rank_last 99 n some_done),
        );
      }

  -- Where some requests completed, in whatever order, and their number times 99 is an int64, the
  -- report is made without a panic: it has their number, those that were good and those that were
  -- not, which make up all of them, and p50, p95, p99 and the greatest latency, which stand at their
  -- ranks among the latencies and are in order.
  pub report-Summarises :
      (results : List Result)
      → 0 < length results
      → 99 * length results < 2 ^ 63
      → (r : Report) × (report floats seconds flags results ≡ some r) × Summarises results r
  unfolding report
  report-Summarises results some_done h =
      let t = tallied results (omega arith) in
      let size : length (tally_from fresh results).latencies ≡ length results =
        ap length t.latencies ∙ length-latencies_of results in
      let go : eqb_ℤ (pos (length (tally_from fresh results).latencies)) (pos 0) ≡ false =
        ground arith in
      (
        printed floats seconds flags (tally_from fresh results),
        rw go refl,
        printed-Summarises results (tally_from fresh results) h some_done t,
      )
