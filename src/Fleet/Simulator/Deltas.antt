-- ===== src/Fleet/Simulator/Deltas.antt =====
-- The deltas of the vehicles, from the ticks to the counters, in whatever order the vehicles and the
-- aggregator run.
use distributed_ml_inference.Prelude.{
  ℕ, ◌+◌, ◌≤◌, ◌<◌, ltb, ℤ, pos, negsuc, pos_part, ltb_ℤ, String, true, false, Bool-cases, List, [],
  ◌∷◌, ◌++◌, length, length-append, ◌≡◌, refl, ap, ◌∙◌, inl, inr, arith,
}
use distributed_ml_inference.Fleet.{Stats, Prometheus, Aggregator, new_aggregator, added, observe}
use distributed_ml_inference.Fleet.Simulator.{offer, collect}

-- The sum of a field over deltas.
abbrev pub sum_of : (Stats → ℤ) → List Stats → ℕ
sum_of field [] = 0
sum_of field (d ∷ ds) = pos_part (field d) + sum_of field ds

sum_of-append :
    (field : Stats → ℤ) (ds es : List Stats)
    → sum_of field (ds ++ es) ≡ sum_of field ds + sum_of field es
sum_of-append field [] es = omega arith
sum_of-append field (d ∷ ds) es = omega (arith, sum_of-append field ds es)

-- What can be read off a counter, as Prometheus documents it.
pub record Readings {C : Type 0} (prometheus : Prometheus C) : Type 0 where
  pub value : C → ℕ
  pub new_value : (namespace name : String) → value (prometheus.new_counter namespace name) ≡ 0
  pub value-add :
      (n : ℕ) (c : C) → 0 < n → value (prometheus.add c (prometheus.float64 (pos n))) ≡ value c + n

offer_room :
    (size : ℕ) (delta : Stats) (stats_ch : List Stats)
    → ltb (length stats_ch) size ≡ true
    → offer size delta stats_ch ≡ stats_ch ++ delta ∷ []
unfolding offer
offer_room size delta stats_ch room = rw room refl

offer_full :
    (size : ℕ) (delta : Stats) (stats_ch : List Stats)
    → ltb (length stats_ch) size ≡ false
    → offer size delta stats_ch ≡ stats_ch
unfolding offer
offer_full size delta stats_ch full = rw full refl

module _ {C : Type 0} (prometheus : Prometheus C) where
  -- The channel and the aggregator after some sends and receptions, with the deltas that vehicles
  -- offered to the channel, and those of them that it did not take.
  pub data Steps (size : ℕ)
      : List Stats × Aggregator C → (offered dropped : List Stats) → Type 0 where
    start : Steps size ([], new_aggregator prometheus) [] []
    sent :
        {stats_ch : List Stats} {a : Aggregator C} {offered dropped : List Stats} (delta : Stats)
        → Steps size (stats_ch, a) offered dropped
        → ltb (length stats_ch) size ≡ true
        → Steps size (offer size delta stats_ch, a) (delta ∷ offered) dropped
    lost :
        {stats_ch : List Stats} {a : Aggregator C} {offered dropped : List Stats} (delta : Stats)
        → Steps size (stats_ch, a) offered dropped
        → ltb (length stats_ch) size ≡ false
        → Steps size (offer size delta stats_ch, a) (delta ∷ offered) (delta ∷ dropped)
    received :
        {s : List Stats × Aggregator C} {offered dropped : List Stats}
        → Steps size s offered dropped
        → Steps size (collect prometheus s) offered dropped

  collect_shorter : (s : List Stats × Aggregator C) → length (collect prometheus s).0 ≤ length s.0
  unfolding collect
  collect_shorter ([], a) = omega arith
  collect_shorter (delta ∷ stats_ch, a) = omega arith

  channel_bounded :
      {size : ℕ} {s : List Stats × Aggregator C} {offered dropped : List Stats}
      → Steps size s offered dropped
      → length s.0 ≤ size
  channel_bounded start = omega arith
  channel_bounded (sent {stats_ch} delta steps room) =
      rw (offer_room _ delta stats_ch room)
        (let below = room in ground (arith, length-append stats_ch (delta ∷ [])))
  channel_bounded (lost {stats_ch} delta steps full) =
      rw (offer_full _ delta stats_ch full) (channel_bounded steps)
  channel_bounded (received {s} steps) =
      let before = channel_bounded steps in omega (arith, collect_shorter s)

  module _ (readings : Readings prometheus) where
    open readings use {value, new_value, value-add}

    value-added : (n : ℤ) (c : C) → value (added prometheus c n) ≡ value c + pos_part n
    value-added (pos n) c = elim (Bool-cases (ltb_ℤ (pos 0) (pos n))) [
      | inl some_more ↦ rw some_more (value-add n c (ground arith))
      | inr none ↦ rw none (ground arith)
    ]
    value-added (negsuc n) c =
        let never : ltb_ℤ (pos 0) (negsuc n) ≡ false = ground arith in rw never (omega arith)

    -- A counter and the field of the deltas that it adds up.
    pub record Counts (counter : Aggregator C → C) (field : Stats → ℤ) : Type 0 where
      fresh : value (counter (new_aggregator prometheus)) ≡ 0
      folds :
          (delta : Stats) (a : Aggregator C)
          → value (counter (observe prometheus delta a))
            ≡ value (counter a) + pos_part (field delta)

    collect_kept :
        (counter : Aggregator C → C) (field : Stats → ℤ)
        → Counts counter field
        → (s : List Stats × Aggregator C)
        → value (counter (collect prometheus s).1) + sum_of field (collect prometheus s).0
          ≡ value (counter s.1) + sum_of field s.0
    unfolding collect
    collect_kept counter field counts ([], a) = refl
    collect_kept counter field counts (delta ∷ stats_ch, a) = omega (arith, counts.folds delta a)

    telemetry : Counts (λ a. a.telemetry_total) (λ d. d.telemetry_ticks)
    unfolding new_aggregator observe
    telemetry = record {
      fresh = new_value _ _;
      folds = λ delta a. value-added delta.telemetry_ticks a.telemetry_total;
    }

    oks : Counts (λ a. a.infer_ok_total) (λ d. d.infer_ok)
    unfolding new_aggregator observe
    oks = record {
      fresh = new_value _ _;
      folds = λ delta a. value-added delta.infer_ok a.infer_ok_total;
    }

    errs : Counts (λ a. a.infer_err_total) (λ d. d.infer_err)
    unfolding new_aggregator observe
    errs = record {
      fresh = new_value _ _;
      folds = λ delta a. value-added delta.infer_err a.infer_err_total;
    }

    conserved :
        {size : ℕ} {s : List Stats × Aggregator C} {offered dropped : List Stats}
        (counter : Aggregator C → C) (field : Stats → ℤ)
        → Counts counter field
        → Steps size s offered dropped
        → value (counter s.1) + sum_of field s.0 + sum_of field dropped ≡ sum_of field offered
    conserved counter field counts start = rw counts.fresh refl
    conserved counter field counts (sent {stats_ch} {a} {dropped = dropped} delta steps room) =
        rw (offer_room _ delta stats_ch room) (
          omega (
            arith,
            sum_of-append field stats_ch (delta ∷ []),
            conserved counter field counts steps,
          ))
    conserved counter field counts (lost {stats_ch} {a} {dropped = dropped} delta steps full) =
        rw (offer_full _ delta stats_ch full) (omega (arith, conserved counter field counts steps))
    conserved counter field counts (received {s} {dropped = dropped} steps) =
        ap (λ m. m + sum_of field dropped) (collect_kept counter field counts s)
        ∙ conserved counter field counts steps

    -- However the vehicles and the aggregator interleave, the channel holds no more deltas than
    -- its size, and, with counters that add up what they are given, each of the three counters
    -- is the sum of the deltas that vehicles offered, less those that a full channel did not
    -- take and those that still wait in it.
    pub counters-conserved :
        {size : ℕ} {s : List Stats × Aggregator C} {offered dropped : List Stats}
        → Steps size s offered dropped
        → (length s.0 ≤ size)
          × (value s.1.telemetry_total
                + sum_of (λ d. d.telemetry_ticks) s.0
                + sum_of (λ d. d.telemetry_ticks) dropped
              ≡ sum_of (λ d. d.telemetry_ticks) offered)
          × (value s.1.infer_ok_total
                + sum_of (λ d. d.infer_ok) s.0
                + sum_of (λ d. d.infer_ok) dropped
              ≡ sum_of (λ d. d.infer_ok) offered)
          × (value s.1.infer_err_total
                + sum_of (λ d. d.infer_err) s.0
                + sum_of (λ d. d.infer_err) dropped
              ≡ sum_of (λ d. d.infer_err) offered)
    counters-conserved steps = (
      channel_bounded steps,
      conserved (λ a. a.telemetry_total) (λ d. d.telemetry_ticks) telemetry steps,
      conserved (λ a. a.infer_ok_total) (λ d. d.infer_ok) oks steps,
      conserved (λ a. a.infer_err_total) (λ d. d.infer_err) errs steps,
    )
