-- ===== src/Loadtest/Percentiles.antt =====
-- percentile of main.go of the load test: what share of the latencies it bounds.
use distributed_ml_inference.Prelude.{
  ℕ, zero, suc, ◌-◌, ◌*◌, ◌/◌, ◌^◌, ◌≤◌, ◌<◌, ltb, ℤ, pos, leb_ℤ, ltb_ℤ, mul64, sub64, ◌*ℤ◌, ◌-ℤ◌,
  wrap64, trunc_div, true, false, Bool-cases, some, List, [], ◌∷◌, length, keep, Elem, here, there,
  All, All-elem, Rearranged, Rearranged-symm, Elem-Rearranged, length-Rearranged, keep-Rearranged,
  sort, sort-Rearranged, sort-IsSorted, IsSorted, ◌≡◌, refl, sym, ap, ◌∙◌, ◌⊎◌, inl, inr,
  if◌then◌else◌, arith,
}
use distributed_ml_inference.Models.{Duration}
use distributed_ml_inference.Loadtest.{at, index, percentile}

pub leb_ℤ_total : (x y : ℤ) → (leb_ℤ x y ≡ true) ⊎ (leb_ℤ y x ≡ true)
leb_ℤ_total x y = ground arith

pub leb_ℤ_trans : (x y z : ℤ) → leb_ℤ x y ≡ true → leb_ℤ y z ≡ true → leb_ℤ x z ≡ true
leb_ℤ_trans x y z h k = ground arith

-- How many of the latencies are at most a value, and how many are less.
abbrev pub at_most : Duration → List Duration → ℕ
at_most v xs = length (keep (λ x. leb_ℤ x v) xs)

abbrev pub less_than : Duration → List Duration → ℕ
less_than v xs = length (keep (λ x. ltb_ℤ x v) xs)

-- The value stands at a rank of a list, from 0 on, in its order.
pub record HasRank (rank : ℕ) (v : Duration) (xs : List Duration) : Type 0 where
  pub among : Elem v xs
  pub above : less_than v xs ≤ rank
  pub below : rank < at_most v xs

none_less :
    (v : Duration) (xs : List Duration) → All (λ x. leb_ℤ v x ≡ true) xs → less_than v xs ≡ 0
unfolding keep
none_less v [] h = refl
none_less v (x ∷ xs) (first, others) =
    let not_less : ltb_ℤ x v ≡ false = ground arith in rw not_less (none_less v xs others)

pub at-HasRank :
    (rank : ℕ) (xs : List Duration)
    → IsSorted leb_ℤ xs
    → rank < length xs
    → (v : Duration) × (at rank xs ≡ some v) × HasRank rank v xs
unfolding keep
at-HasRank rank [] sorted h = absurd (omega arith)
at-HasRank zero (x ∷ xs) (first, sorted) h =
    let itself : leb_ℤ x x ≡ true = ground arith in
    let not_less : ltb_ℤ x x ≡ false = ground arith in
    (
      x,
      refl,
      record {
        among = here;
        above = rw not_less (rw (none_less x xs first) (omega arith));
        below = rw itself (omega arith);
      },
    )
at-HasRank (suc rank) (x ∷ xs) (first, sorted) h =
    let (v, is, ranked) = at-HasRank rank xs sorted (omega arith) in
    let smaller = All-elem (λ y. leb_ℤ x y ≡ true) xs first ranked.among in
    (
      v,
      is,
      record {
        among = there ranked.among;
        above = elim (Bool-cases (ltb_ℤ x v)) [
          | inl t ↦ rw t (omega (arith, ranked.above))
          | inr f ↦ rw f (omega (arith, ranked.above))
        ];
        below = rw smaller (omega (arith, ranked.below));
      },
    )

pub HasRank-Rearranged :
    (rank : ℕ) (v : Duration) {xs ys : List Duration}
    → Rearranged xs ys
    → HasRank rank v xs
    → HasRank rank v ys
HasRank-Rearranged rank v r h = record {
  among = Elem-Rearranged r h.among;
  above = omega (arith, length-Rearranged (keep-Rearranged (λ x. ltb_ℤ x v) r), h.above);
  below = omega (arith, length-Rearranged (keep-Rearranged (λ x. leb_ℤ x v) r), h.below);
}

at_most-le-less_than :
    (w v : Duration) (xs : List Duration) → ltb_ℤ w v ≡ true → at_most w xs ≤ less_than v xs
unfolding keep
at_most-le-less_than w v [] h = omega arith
at_most-le-less_than w v (x ∷ xs) h = elim (Bool-cases (leb_ℤ x w)) [
  | inl t ↦
      let less : ltb_ℤ x v ≡ true = ground arith in
      rw t (rw less (omega (arith, at_most-le-less_than w v xs h)))
  | inr f ↦ rw f (elim (Bool-cases (ltb_ℤ x v)) [
    | inl u ↦ rw u (omega (arith, at_most-le-less_than w v xs h))
    | inr g ↦ rw g (at_most-le-less_than w v xs h)
  ])
]

-- Values stand in the order of their ranks.
pub HasRank-leb :
    (i j : ℕ) (v w : Duration) (xs : List Duration)
    → HasRank i v xs
    → HasRank j w xs
    → i ≤ j
    → leb_ℤ v w ≡ true
HasRank-leb i j v w xs hv hw h = elim (Bool-cases (ltb_ℤ w v)) [
  | inl less ↦ absurd (omega (arith, hv.above, hw.below, at_most-le-less_than w v xs less))
  | inr not_less ↦ ground arith
]

-- p percent of n, or the last of n where that is past it.
abbrev pub rank_of : ℕ → ℕ → ℕ
rank_of p n = if ltb (p * n / 100) n then p * n / 100 else n - 1

rank_of-lt : (p n : ℕ) → 0 < n → rank_of p n < n
rank_of-lt p n h = ground arith

mul64_small : (p n : ℕ) → p * n < 2 ^ 63 → mul64 (pos p) (pos n) ≡ pos (p * n)
unfolding ◌*ℤ◌ wrap64
mul64_small p n h = ground arith

clipped :
    (m n : ℕ)
    → 0 < n
    → n < 2 ^ 63
    → let idx = trunc_div (pos m) 100 in
      (if leb_ℤ (pos n) idx then sub64 (pos n) (pos 1) else idx)
      ≡ pos (if ltb (m / 100) n then m / 100 else n - 1)
unfolding trunc_div ◌-ℤ◌ wrap64
clipped m n h fits = ground arith

index_of :
    (p n : ℕ)
    → 0 < n
    → p * n < 2 ^ 63
    → n < 2 ^ 63
    → let idx = trunc_div (mul64 (pos p) (pos n)) 100 in
      (if leb_ℤ (pos n) idx then sub64 (pos n) (pos 1) else idx) ≡ pos (rank_of p n)
index_of p n h small fits =
    ap (λ m. let idx = trunc_div m 100 in if leb_ℤ (pos n) idx then sub64 (pos n) (pos 1) else idx)
      (mul64_small p n small)
    ∙ clipped (p * n) n h fits

percentile-at :
    (p : ℕ) (ys : List Duration)
    → 0 < length ys
    → p * length ys < 2 ^ 63
    → length ys < 2 ^ 63
    → percentile ys (pos p) ≡ at (rank_of p (length ys)) ys
unfolding percentile
percentile-at p ys h small fits = ap (λ i. index i ys) (index_of p (length ys) h small fits)

-- Of latencies, however they came in, a percentile from 0 to 100 is one of them, namely the one with
-- p percent of them, rounded down, before it in their order, or the last one.
pub percentile-HasRank :
    (p : ℕ) (latencies : List Duration)
    → 0 < length latencies
    → p * length latencies < 2 ^ 63
    → length latencies < 2 ^ 63
    → (v : Duration) × (percentile (sort leb_ℤ latencies) (pos p) ≡ some v)
      × HasRank (rank_of p (length latencies)) v latencies
percentile-HasRank p latencies h small fits =
    let r = sort-Rearranged leb_ℤ latencies in
    let same = length-Rearranged r in
    let (v, is, ranked) =
      at-HasRank (rank_of p (length latencies)) (sort leb_ℤ latencies)
        (sort-IsSorted leb_ℤ leb_ℤ_total leb_ℤ_trans latencies)
        (omega (arith, same, rank_of-lt p (length latencies) h)) in
    (
      v,
      percentile-at p (sort leb_ℤ latencies) (rw same at h) (rw same at small) (rw same at fits)
          ∙ ap (λ n. at (rank_of p n) (sort leb_ℤ latencies)) (sym same)
          ∙ is,
      HasRank-Rearranged _ v (Rearranged-symm r) ranked,
    )

last_index : (n : ℕ) → 0 < n → n < 2 ^ 63 → sub64 (pos n) (pos 1) ≡ pos (n - 1)
unfolding ◌-ℤ◌ wrap64
last_index n h fits = ground arith

-- The last of the sorted latencies has the last rank.
pub last-HasRank :
    (latencies : List Duration)
    → 0 < length latencies
    → length latencies < 2 ^ 63
    → let sorted = sort leb_ℤ latencies in
      (v : Duration) × (index (sub64 (pos (length sorted)) (pos 1)) sorted ≡ some v)
      × HasRank (length latencies - 1) v latencies
last-HasRank latencies h fits =
    let r = sort-Rearranged leb_ℤ latencies in
    let sorted = sort leb_ℤ latencies in
    let size : length sorted ≡ length latencies = sym (length-Rearranged r) in
    let (v, is, ranked) =
      at-HasRank (length latencies - 1) sorted
        (sort-IsSorted leb_ℤ leb_ℤ_total leb_ℤ_trans latencies) (omega (arith, size)) in
    (
      v,
      ap (λ i. index i sorted)
            (ap (λ n. sub64 (pos n) (pos 1)) size ∙ last_index (length latencies) h fits)
          ∙ is,
      HasRank-Rearranged _ v (Rearranged-symm r) ranked,
    )
