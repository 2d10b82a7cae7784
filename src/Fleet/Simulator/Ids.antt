-- ===== src/Fleet/Simulator/Ids.antt =====
-- The names that main.go of the simulator gives to the vehicles.
use text.Mathlib.TextLemmas.{append_cancel_left}
use distributed_ml_inference.Prelude.{
  ℕ, zero, suc, ◌+◌, ◌/◌, ◌%◌, ◌^◌, ◌≤◌, ◌<◌, pos, pos_part, eqb, eqb_ℤ, ltb_ℤ, String, text_append,
  false, Bool-cases, some, List, [], ◌∷◌, length, All, ◌≡◌, ◌≢◌, refl, sym, ap, ◌∙◌, inl, inr,
  arith,
}
use distributed_ml_inference.Queue.Itoa.{digit, itoa_loop, put_sign, itoa-IsDecimal, itoa_injective}
use distributed_ml_inference.Queue.Itoa
use distributed_ml_inference.Fleet.Vehicle.{Config}
use distributed_ml_inference.Fleet.Simulator.{
  prepend_digits, itoa, prefixed, vehicle_id, Settings, config_for, fleet_from, fleet,
}

signs : (n : ℕ) → (eqb_ℤ (pos (suc n)) (pos 0) ≡ false) × (ltb_ℤ (pos (suc n)) (pos 0) ≡ false)
signs n = ground arith

-- The loop of memory.go writes the digits into a buffer, this one in front of a slice.
prepend_digits-itoa_loop :
    (fuel n : ℕ) (text : String)
    → put_sign false (itoa_loop fuel n text) ≡ prepend_digits fuel n text
unfolding prepend_digits itoa_loop put_sign
prepend_digits-itoa_loop zero n text = elim (Bool-cases (eqb n 0)) [
  | inl t ↦ rw t refl
  | inr f ↦ rw f refl
]
prepend_digits-itoa_loop (suc fuel) n text = elim (Bool-cases (eqb n 0)) [
  | inl t ↦ rw t refl
  | inr f ↦ rw f (prepend_digits-itoa_loop fuel (n / 10) (String.◌∷◌ (digit (n % 10)) text))
]

-- From 0 up, `itoa` of the simulator writes what `itoa` of the queue writes, and so ends.
pub itoa-queue_itoa : (n : ℕ) → n < 2 ^ 63 → itoa (pos n) ≡ Itoa.itoa (pos n)
unfolding itoa Itoa.itoa
itoa-queue_itoa zero h = refl
itoa-queue_itoa (suc n) h =
    rw ((signs n).0, (signs n).1) (sym (prepend_digits-itoa_loop 20 (suc n) ""))

vehicle_id_of :
    (i : ℕ)
    → i < 2 ^ 63
    → (s : String) × (Itoa.itoa (pos i) ≡ some s)
      × (vehicle_id (pos i) ≡ some (text_append "vehicle-" s))
unfolding vehicle_id
vehicle_id_of i h =
    let (s, written, _) = itoa-IsDecimal (pos i) (h, omega arith) (omega arith) in
    (s, written, ap prefixed (itoa-queue_itoa i h ∙ written))

same_text : {s t : String} → some s ≡ some t → s ≡ t
same_text h = cc

vehicle_id_injective :
    (i j : ℕ) → i < 2 ^ 63 → j < 2 ^ 63 → vehicle_id (pos i) ≡ vehicle_id (pos j) → i ≡ j
vehicle_id_injective i j hi hj same =
    let (s, s_written, s_named) = vehicle_id_of i hi in
    let (t, t_written, t_named) = vehicle_id_of j hj in
    let equal : s ≡ t =
      append_cancel_left "vehicle-" s t (same_text (sym s_named ∙ same ∙ t_named)) in
    itoa_injective i j hi hj (s_written ∙ ap some equal ∙ sym t_written)

-- No name of the list comes twice.
abbrev pub Distinct : List Config → Type 0
Distinct [] = Unit
Distinct (c ∷ cs) = All (λ d. c.id ≢ d.id) cs × Distinct cs

-- The vehicles of a list have the numbers from some bound on.
abbrev NumberedFrom : ℕ → Config → Type 0
NumberedFrom i c = (j : ℕ) × (i ≤ j) × (j < 2 ^ 63) × (vehicle_id (pos j) ≡ some c.id)

All_map {ℓ} :
    {A : Type 0} {P Q : A → Type ℓ} → ((a : A) → P a → Q a) → (xs : List A) → All P xs → All Q xs
All_map f [] h = tt
All_map f (x ∷ xs) (h, hs) = (f x h, All_map f xs hs)

later : (i : ℕ) (c : Config) → NumberedFrom (suc i) c → NumberedFrom i c
later i c (j, from, below, named) = (j, omega arith, below, named)

other :
    (i : ℕ) (id : String)
    → i < 2 ^ 63
    → vehicle_id (pos i) ≡ some id
    → (c : Config) → NumberedFrom (suc i) c
    → id ≢ c.id
other i id small named c (j, from, below, named_j) same =
    let equal : i ≡ j = vehicle_id_injective i j small below (named ∙ ap some same ∙ sym named_j) in
    absurd (omega arith)

fleet_from-Distinct :
    (k i : ℕ) (settings : Settings)
    → i + k < 2 ^ 63
    → (cfgs : List Config) × (fleet_from k i settings ≡ some cfgs)
      × (length cfgs ≡ k)
      × All (NumberedFrom i) cfgs
      × Distinct cfgs
unfolding fleet_from
fleet_from-Distinct zero i settings h = ([], refl, refl, tt, tt)
fleet_from-Distinct (suc k) i settings h =
    let (s, written, named) = vehicle_id_of i (omega arith) in
    let id = text_append "vehicle-" s in
    let (cfgs, made, size, numbered, distinct) =
      fleet_from-Distinct k (suc i) settings (omega arith) in
    (
      config_for settings id ∷ cfgs,
      rw named (rw made refl),
      ap suc size,
      ((i, omega arith, omega arith, named), All_map (later i) cfgs numbered),
      (All_map (other i id (omega arith) named) cfgs numbered, distinct),
    )

-- Where the size of the fleet is an int64 from 0 up, the loop of `main` ends, with as many vehicles
-- as that, and no two of them have the same name.
pub fleet-Distinct :
    (settings : Settings) (n : ℕ)
    → settings.fleet_size ≡ pos n
    → n < 2 ^ 63
    → (cfgs : List Config) × (fleet settings ≡ some cfgs) × (length cfgs ≡ n) × Distinct cfgs
unfolding fleet
fleet-Distinct settings n size h =
    let (cfgs, made, count, _, distinct) = fleet_from-Distinct n 0 settings (omega arith) in
    (cfgs, ap (λ z. fleet_from (pos_part z) 0 settings) size ∙ made, count, distinct)
