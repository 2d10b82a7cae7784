-- ===== src/Fleet/Vehicle/Ticks.antt =====
-- Run of vehicle.go: how many inference requests a vehicle makes, and what its deltas say of them.
use native.Mathlib.Nat.{
  mul-add-div, mul-add-mod_self_left, div-add-mod, mod-lt, div-eq_of_lt, mod-eq_of_lt, div_self,
  mod_self, zero-div,
}
use distributed_ml_inference.Prelude.{
  ℕ, zero, suc, ◌+◌, ◌*◌, ◌/◌, ◌%◌, ◌^◌, ◌<◌, ℤ, pos, pos_part, eqb, ltb, ltb_ℤ, add64, wrap64,
  ◌+ℤ◌, String, text_append, Bool, true, false, ◌&&◌, Bool-cases, Option, Option-cases, none, some,
  List, [], ◌∷◌, ◌≡◌, refl, sym, ap, ◌∙◌, inl, inr, arith,
}
use distributed_ml_inference.Models.{F64, Duration}
use distributed_ml_inference.Fleet.{Stats}
use distributed_ml_inference.Fleet.Vehicle.{
  Config, hash, jitter, start, Rand, Floats, Http, Vehicle, divides, is_due, delta_of, send_infer,
  on_tick, run,
}

-- The sums of the deltas: ticks, and inference requests whatever became of them.
abbrev pub ticked : List Stats → ℕ
ticked [] = 0
ticked (d ∷ ds) = pos_part d.telemetry_ticks + ticked ds

abbrev pub requested : List Stats → ℕ
requested [] = 0
requested (d ∷ ds) = pos_part d.infer_ok + pos_part d.infer_err + requested ds

abbrev one_if : Bool → ℕ
one_if true = 1
one_if false = 0

add_zero : (n : ℕ) → n + 0 ≡ n
add_zero n = omega arith

zero_add : (n m : ℕ) → 0 / n + m ≡ m
zero_add n m = omega (arith, zero-div n)

zero_left : (k : ℕ) → 0 + k ≡ k
zero_left k = omega arith

add_assoc : (a b c : ℕ) → a + b + c ≡ a + (b + c)
add_assoc a b c = omega arith

one_more : (k : ℕ) → 1 + k ≡ suc k
one_more k = omega arith

shift : (t k : ℕ) → suc t + k ≡ t + suc k
shift t k = omega arith

-- One more is divided once more where it is a multiple.
div-suc : (n t : ℕ) → 0 < n → suc t / n ≡ t / n + one_if (eqb (suc t % n) 0)
div-suc n t h =
    let same : suc t ≡ n * (t / n) + suc (t % n) = omega (arith, div-add-mod t n) in
    let below : t % n < n = mod-lt t h in
    let quotient : suc t / n ≡ t / n + suc (t % n) / n =
      ap (λ m. m / n) same ∙ mul-add-div h (t / n) (suc (t % n)) in
    let remainder : suc t % n ≡ suc (t % n) % n =
      ap (λ m. m % n) same ∙ mul-add-mod_self_left n (t / n) (suc (t % n)) in
    elim (Bool-cases (ltb (suc (t % n)) n)) [
      | inl small ↦
          let fits : suc (t % n) < n = ground arith in
          let r : suc (t % n) % n ≡ suc (t % n) = mod-eq_of_lt fits in
          let q : suc (t % n) / n ≡ 0 = div-eq_of_lt fits in
          rw quotient (rw remainder (rw q (rw r (not_zero (t / n) (t % n)))))
      | inr full ↦
          let whole : suc (t % n) ≡ n = ground arith in
          let r : suc (t % n) % n ≡ 0 = ap (λ m. m % n) whole ∙ mod_self n in
          let q : suc (t % n) / n ≡ 1 = ap (λ m. m / n) whole ∙ div_self h in
          rw quotient (rw remainder (rw q (rw r refl)))
    ]
  where
    not_zero : (q r : ℕ) → q + 0 ≡ q + one_if (eqb (suc r) 0)
    not_zero q r = ground arith

add_one : (t : ℕ) → suc t < 2 ^ 63 → add64 (pos t) (pos 1) ≡ pos (suc t)
unfolding ◌+ℤ◌ wrap64
add_one t h = ground arith

positive :
    (n t : ℕ) → 0 < n → (ltb_ℤ (pos 0) (pos n) && divides (pos n) (pos (suc t))) ≡ eqb (suc t % n) 0
positive n t h =
    let there : ltb_ℤ (pos 0) (pos n) ≡ true = ground arith in
    rw there (rw (add_zero n) (rw (add_zero (suc t)) refl))

delta_sent :
    (o : Option String)
    → (pos_part (delta_of (some o)).telemetry_ticks ≡ 1)
      × (pos_part (delta_of (some o)).infer_ok + pos_part (delta_of (some o)).infer_err ≡ 1)
delta_sent none = (refl, refl)
delta_sent (some e) = (refl, refl)

module _ {R B N : Type 0} (rand : Rand R) (floats : Floats) (http : Http B N) where
  -- The generator after the two draws of `start`.
  abbrev seeded : Config → R
  seeded cfg = (rand.float64 (rand.float64 (rand.new_rand (hash cfg.id))).1).1

  -- A tick of a vehicle: its number, and what its delta says.
  tick_delta :
      (cfg : Config) (n t : ℕ) (v : Vehicle R) (net : N)
      → cfg.infer_every ≡ pos n
      → 0 < n
      → v.tick ≡ pos t
      → suc t < 2 ^ 63
      → let once = on_tick rand floats http cfg (v, net) in
        (once.1.0.tick ≡ pos (suc t))
        × (pos_part once.0.0.telemetry_ticks ≡ 1)
        × (pos_part once.0.0.infer_ok + pos_part once.0.0.infer_err ≡ one_if (eqb (suc t % n) 0))
  unfolding on_tick
  tick_delta cfg n t v net every h now small =
      let next : add64 v.tick (pos 1) ≡ pos (suc t) = rw now (add_one t small) in
      let due : is_due cfg (pos (suc t)) ≡ eqb (suc t % n) 0 = rw every (positive n t h) in
      elim (Bool-cases (eqb (suc t % n) 0)) [
        | inl multiple ↦ rw next (rw due (rw multiple (refl, (delta_sent _).0, (delta_sent _).1)))
        | inr other ↦ rw next (rw due (rw other (refl, refl, refl)))
      ]

  abbrev tick_of : Option (Duration × Vehicle R) → ℤ
  tick_of none = pos 0
  tick_of (some made) = made.1.tick

  start_tick :
      (cfg : Config) (period : Duration) (v : Vehicle R)
      → start rand floats http cfg ≡ some (period, v)
      → v.tick ≡ pos 0
  unfolding start
  start_tick cfg period v h = elim (Option-cases (jitter rand cfg.telemetry_period (seeded cfg))) [
    | inl none_made ↦ let clash = rw (none_made, start) at h in absurd (cc)
    | inr (made, is) ↦ sym (ap tick_of (rw (is, start) at h))
  ]

  -- From any tick on, k ticks are counted as k, and their requests are as many as there are
  -- multiples of n between.
  run_from :
      (k n t : ℕ) (cfg : Config) (v : Vehicle R) (net : N)
      → cfg.infer_every ≡ pos n
      → 0 < n
      → v.tick ≡ pos t
      → t + k < 2 ^ 63
      → let deltas = (run rand floats http k cfg (v, net)).0 in
        (ticked deltas ≡ k) × (t / n + requested deltas ≡ (t + k) / n)
  unfolding run
  run_from zero n t cfg v net every h now small =
      (refl, rw (add_zero (t / n)) (rw (add_zero t) refl))
  run_from (suc k) n t cfg v net every h now small =
      let (next, one, asked) = tick_delta cfg n t v net every h now (omega arith) in
      let once = on_tick rand floats http cfg (v, net) in
      let (count, rest) = run_from k n (suc t) cfg once.1.0 once.1.1 every h next (omega arith) in
      (
        rw one (rw count (one_more k)),
        rw asked (
            sym (add_assoc (t / n) _ _)
            ∙ ap (λ m. m + requested (run rand floats http k cfg once.1).0) (sym (div-suc n t h))
            ∙ rest
            ∙ ap (λ m. m / n) (shift t k)),
      )

-- A client that counts the requests that it sends, beside the network.
abbrev pub counting : {B N : Type 0} → Http B N → Http B (ℕ × N)
counting http = record {
  request_error = http.request_error;
  marshal = http.marshal;
  send = λ request (n, net). let sent = http.send request net in (sent.0, (suc n, sent.1));
  refusal = http.refusal;
}

cancel : (a b f s x : ℕ) → a + b + f ≡ s + b + x → a + f ≡ s + x
cancel a b f s x h = omega arith

module _ {R B N : Type 0} (rand : Rand R) (floats : Floats) (http : Http B N) (cfg : Config)
    (made : http.request_error "POST" (text_append cfg.gateway_url "/v1/infer") ≡ none) where
  send_infer-sends :
      (features : List F64) (sent : ℕ) (net : N)
      → (send_infer (counting http) cfg features (sent, net)).1.0 ≡ sent + 1
  unfolding send_infer
  send_infer-sends features sent net = rw (made, send_infer) (omega arith)

  tick_sends :
      (n t sent : ℕ) (v : Vehicle R) (net : N)
      → cfg.infer_every ≡ pos n
      → 0 < n
      → v.tick ≡ pos t
      → suc t < 2 ^ 63
      → (on_tick rand floats (counting http) cfg (v, (sent, net))).1.1.0
        ≡ sent + one_if (eqb (suc t % n) 0)
  unfolding on_tick
  tick_sends n t sent v net every h now small =
      let next : add64 v.tick (pos 1) ≡ pos (suc t) = rw now (add_one t small) in
      let due : is_due cfg (pos (suc t)) ≡ eqb (suc t % n) 0 = rw every (positive n t h) in
      elim (Bool-cases (eqb (suc t % n) 0)) [
        | inl multiple ↦ rw next (rw due (rw multiple (send_infer-sends _ sent net)))
        | inr other ↦ rw next (rw due (rw other (sym (add_zero sent))))
      ]

  run_sends :
      (k n t sent : ℕ) (v : Vehicle R) (net : N)
      → cfg.infer_every ≡ pos n
      → 0 < n
      → v.tick ≡ pos t
      → t + k < 2 ^ 63
      → t / n + (run rand floats (counting http) k cfg (v, (sent, net))).1.1.0 ≡ sent + (t + k) / n
  unfolding run
  run_sends zero n t sent v net every h now small = rw (add_zero t) (swap (t / n) sent)
    where
      swap : (a b : ℕ) → a + b ≡ b + a
      swap a b = omega arith
  run_sends (suc k) n t sent v net every h now small =
      let http' = counting http in
      let once = on_tick rand floats http' cfg (v, (sent, net)) in
      let (next, _, _) =
        tick_delta rand floats http' cfg n t v (sent, net) every h now (omega arith) in
      let went = tick_sends n t sent v net every h now (omega arith) in
      let rest = run_sends k n (suc t) once.1.1.0 once.1.0 once.1.1.1 every h next (omega arith) in
      let final = (run rand floats http' k cfg once.1).1.1.0 in
      cancel (t / n) (one_if (eqb (suc t % n) 0)) final sent ((t + suc k) / n) (
        ap (λ m. m + final) (sym (div-suc n t h))
        ∙ rest
        ∙ ap (λ m. m + (suc t + k) / n) went
        ∙ ap (λ m. sent + one_if (eqb (suc t % n) 0) + m / n) (shift t k))

  -- A vehicle that starts with InferEvery at n > 0, whose requests http.NewRequest can make, counts
  -- each of its first k ticks once, sends exactly k / n inference requests in them, and counts each
  -- of these once in its deltas, as one that was answered well or as one that was not.
  pub run-requested :
      (k n : ℕ) (period : Duration) (v : Vehicle R) (net : N)
      → cfg.infer_every ≡ pos n
      → 0 < n
      → k < 2 ^ 63
      → start rand floats (counting http) cfg ≡ some (period, v)
      → let out = run rand floats (counting http) k cfg (v, (0, net)) in
        (ticked out.0 ≡ k) × (requested out.0 ≡ k / n) × (out.1.1.0 ≡ k / n)
  run-requested k n period v net every h small started =
      let http' = counting http in
      let at_0 = start_tick rand floats http' cfg period v started in
      let (count, rest) =
        run_from rand floats http' k n 0 cfg v (0, net) every h at_0 (omega arith) in
      let sends = run_sends k n 0 0 v net every h at_0 (omega arith) in
      (
        count,
        sym (zero_add n _) ∙ rest ∙ ap (λ m. m / n) (zero_left k),
        sym (zero_add n _) ∙ sends ∙ zero_left _ ∙ ap (λ m. m / n) (zero_left k),
      )
