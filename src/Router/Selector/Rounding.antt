-- ===== src/Router/Selector/Rounding.antt =====
-- The scores of `Select` in selector.go, in float64 arithmetic.
use distributed_ml_inference.Prelude.{
  ℕ, ℤ, pos, ◌+◌, Bool-cases, inl, inr, ◌≡◌, ◌≤◌, ◌^◌, ◌*◌, arith, pos_part, neg_part, ◌+ℤ◌, ◌-ℤ◌,
  ◌*ℤ◌, ◌≤ℤ◌, ◌<ℤ◌, IsInt64, int_laws, eqb_ℤ, if◌then◌else◌, ◌&&◌,
}
use distributed_ml_inference.Models.{Priority, priority_critical}
use distributed_ml_inference.Router.Registry.{Worker}
use distributed_ml_inference.Router.Selector.{max_float64, score}

-- What IEEE 754 says of rounding to float64, where the exact result is whole.
pub record IsRounding (round : ℤ → ℤ) : Type 0 where
  pub mono : (a b : ℤ) → a ≤ℤ b → round a ≤ℤ round b
  pub exact : (a : ℤ) → pos_part a ≤ 2 ^ 53 → neg_part a ≤ 2 ^ 53 → round a ≡ a
  pub power_of_two : (k : ℕ) → k ≤ 1023 → round (pos (2 ^ k)) ≡ pos (2 ^ k)

times_fifteen_le : (a : ℤ) → a ≤ℤ pos (2 ^ 63) → a *ℤ pos 15 ≤ℤ pos (2 ^ 67)
unfolding ◌*ℤ◌
times_fifteen_le a h = ground arith

pos-times_fifteen : (n : ℕ) → pos n *ℤ pos 15 ≡ pos (n * 15)
unfolding ◌*ℤ◌
pos-times_fifteen n = ground arith

pos-plus : (m n : ℕ) → pos m +ℤ pos n ≡ pos (m + n)
unfolding ◌+ℤ◌
pos-plus m n = ground arith

minus_small :
    (n : ℕ)
    → n ≤ 2 ^ 52
    → (pos_part (pos n -ℤ pos 25) ≤ 2 ^ 53) × (neg_part (pos n -ℤ pos 25) ≤ 2 ^ 53)
unfolding ◌-ℤ◌
minus_small n h = ground arith

module _ (round : ℤ → ℤ) (r : IsRounding round) where
  round-le : (k : ℕ) (a : ℤ) → k ≤ 1023 → a ≤ℤ pos (2 ^ k) → round a ≤ℤ pos (2 ^ k)
  round-le k a small h = rw (r.power_of_two k small) at (r.mono a (pos (2 ^ k)) h)

  base-le :
      (lat load : ℤ)
      → IsInt64 lat
      → IsInt64 load
      → round (round lat +ℤ round (round load *ℤ pos 15)) ≤ℤ pos (2 ^ 68)
  base-le lat load l n =
      let lat_le = round-le 63 lat (omega arith) (omega arith) in
      let load_le = round-le 63 load (omega arith) (omega arith) in
      let weight_le =
        round-le 67 (round load *ℤ pos 15) (omega arith) (times_fifteen_le _ load_le) in
      round-le 68 _ (omega arith) (omega int_laws)

  discount-le : (a : ℤ) → a ≤ℤ pos (2 ^ 68) → round (a -ℤ pos 25) ≤ℤ pos (2 ^ 68)
  discount-le a h = round-le 68 (a -ℤ pos 25) (omega arith) (omega int_laws)

  score-le :
      (priority : Priority) (w : Worker)
      → IsInt64 w.last_latency_ms
      → IsInt64 w.in_flight
      → score round priority w ≤ℤ pos (2 ^ 68)
  unfolding score
  score-le priority w l n =
      let base = base-le w.last_latency_ms w.in_flight l n in
      let less = discount-le _ base in
      elim (Bool-cases (eqb_ℤ priority priority_critical && w.gpu_available)) [
        | inl t ↦ rw t less
        | inr f ↦ rw f base
      ]

  below_max_float64 : (a : ℤ) → a ≤ℤ pos (2 ^ 68) → a <ℤ max_float64
  unfolding max_float64
  below_max_float64 a h = omega arith

  -- Whatever int64 latency and load a worker has, under IEEE rounding, its score is below MaxFloat64.
  pub score-lt-max_float64 :
      (priority : Priority) (w : Worker)
      → IsInt64 w.last_latency_ms
      → IsInt64 w.in_flight
      → score round priority w <ℤ max_float64
  score-lt-max_float64 priority w l n = below_max_float64 _ (score-le priority w l n)

  -- Up to 2^48 in size the latency and the load give the exact score of the comment above `Select`.
  pub score_exact :
      (priority : Priority) (w : Worker) (lat load : ℕ)
      → w.last_latency_ms ≡ pos lat
      → w.in_flight ≡ pos load
      → lat ≤ 2 ^ 48
      → load ≤ 2 ^ 48
      → score round priority w ≡ (
          if eqb_ℤ priority priority_critical && w.gpu_available
          then pos (lat + load * 15) -ℤ pos 25
          else pos (lat + load * 15))
  unfolding score
  score_exact priority w lat load hl hn l n =
      rw (hl, hn)
        (rw (
          r.exact (pos lat) (omega arith) (omega arith),
          r.exact (pos load) (omega arith) (omega arith),
          pos-times_fifteen load,
          r.exact (pos (load * 15)) (omega arith) (omega arith),
          pos-plus lat (load * 15),
          r.exact (pos (lat + load * 15)) (omega arith) (omega arith),
          r.exact (pos (lat + load * 15) -ℤ pos 25) (minus_small _ (omega arith)).0
              (minus_small _ (omega arith)).1,
        ))
