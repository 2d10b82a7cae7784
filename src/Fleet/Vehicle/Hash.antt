-- ===== src/Fleet/Vehicle/Hash.antt =====
-- The seed and the period of a vehicle: hash and jitter of vehicle.go.
use distributed_ml_inference.Prelude.{
  ℕ, suc, ◌+◌, ◌-◌, ◌^◌, ◌≤◌, ◌<◌, ℤ, pos, negsuc, pos_part, ltb_ℤ, sub64, add64, wrap64,
  wrap64-IsInt64, ◌-ℤ◌, ◌+ℤ◌, trunc_div, IsInt64, String, true, false, Bool-cases, ltb, none, some,
  ◌≡◌, refl, ◌⊎◌, inl, inr, if◌then◌else◌, arith, ◌/◌, ◌<ℤ◌, ◌≤ℤ◌,
}
use distributed_ml_inference.Models.{Duration}
use distributed_ml_inference.Fleet.Vehicle.{hash_from, hash, Rand, jitter}

hash_from-IsInt64 : (s : String) (h : ℤ) → IsInt64 h → IsInt64 (hash_from h s)
unfolding hash_from
hash_from-IsInt64 String.[] h is = is
hash_from-IsInt64 (String.◌∷◌ c s) h is = hash_from-IsInt64 s _ (wrap64-IsInt64 _)

absolute :
    (h : ℤ)
    → IsInt64 h
    → let a = if ltb_ℤ h (pos 0) then sub64 (pos 0) h else h in
      ((n : ℕ) × (n < 2 ^ 63) × (a ≡ pos n)) ⊎ (a ≡ negsuc (2 ^ 63 - 1))
unfolding ◌-ℤ◌ wrap64
absolute (pos n) is = inl (n, is.0, ground arith)
absolute (negsuc n) is = elim (Bool-cases (ltb (suc n) (2 ^ 63))) [
  | inl small ↦ inl (suc n, ground arith, ground arith)
  | inr least ↦ inr (ground arith)
]

-- The seed of a vehicle is an int64 from 0 up, or it is the least int64, whose negation it is.
pub hash-range :
    (s : String) → ((n : ℕ) × (n < 2 ^ 63) × (hash s ≡ pos n)) ⊎ (hash s ≡ negsuc (2 ^ 63 - 1))
unfolding hash
hash-range s =
    absolute (hash_from (pos 1469598103934665603) s)
      (hash_from-IsInt64 s (pos 1469598103934665603) (omega arith, omega arith))

add64_small : (m k : ℕ) → m + k < 2 ^ 63 → add64 (pos m) (pos k) ≡ pos (m + k)
unfolding ◌+ℤ◌ wrap64
add64_small m k h = ground arith

half_negative : (n : ℕ) → ltb_ℤ (pos 0) (trunc_div (negsuc n) 2) ≡ false
unfolding trunc_div
half_negative n = ground arith

module _ {R : Type 0} (rand : Rand R) where
  -- Int63n of math/rand answers from 0 up, below its bound, where the bound is positive.
  abbrev pub DrawsBelow : Type 0
  DrawsBelow = (m : ℕ) (r : R) → 0 < m → (k : ℕ) × (k < m) × ((rand.int63n (pos m) r).0 ≡ pos k)

  -- A period of 2ns or more is jittered to between its half and itself; a shorter one, or one that
  -- is negative, makes the vehicle panic.
  pub jitter-range :
      DrawsBelow
      → (base : Duration) (r : R) → IsInt64 base
      → (pos 2 ≤ℤ base
          → (d : ℕ) × (r' : R) × (jitter rand base r ≡ some (pos d, r'))
            × (pos_part base / 2 ≤ d)
            × (d < pos_part base))
        × (base <ℤ pos 2 → jitter rand base r ≡ none)
  unfolding jitter trunc_div
  jitter-range draws (pos n) r is = (
    λ long.
        let (k, below, drawn) = draws (n / 2) r (omega arith) in
        let positive : ltb_ℤ (pos 0) (pos (n / 2)) ≡ true = ground arith in
        (
          n / 2 + k,
          (rand.int63n (pos (n / 2)) r).1,
          rw positive
              (rw drawn (rw (add64_small (n / 2) k (omega (arith, is.0, below, long))) refl)),
          omega arith,
          omega arith,
        ),
    λ short.
        let none_left : ltb_ℤ (pos 0) (pos (n / 2)) ≡ false = ground arith in rw none_left refl,
  )
  jitter-range draws (negsuc n) r is =
      (λ long. absurd (omega arith), λ short. rw (half_negative n) refl)
