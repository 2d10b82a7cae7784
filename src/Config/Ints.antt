-- ===== src/Config/Ints.antt =====
-- Numbers that are written by itoa of memory.go and read by Int of config.go.
use Prim.Native.Char.{Char, code}
use distributed_ml_inference.Prelude.{
  ℕ, zero, suc, ◌+◌, ◌-◌, ◌*◌, ◌/◌, ◌%◌, ◌^◌, ◌<◌, ℤ, pos, eqb, leb, eqb_ℤ, ltb_ℤ, String, true,
  false, Bool-cases, Option, none, some, ◌==◌, eq_iff, ◌≡◌, ◌≢◌, refl, sym, ap, ◌∙◌, ◌⊎◌, inl, inr,
  ◌&&◌, arith,
}
use distributed_ml_inference.Queue.Itoa.{digit, itoa_loop, put_sign, itoa, code-digit}
use distributed_ml_inference.Config.{
  Environment, is_digit, digits_after, magnitude, positive, atoi, int,
}

is_digit-digit : (d : ℕ) → is_digit (digit d) ≡ true
unfolding digit
is_digit-digit zero = refl
is_digit-digit (suc zero) = refl
is_digit-digit (suc (suc zero)) = refl
is_digit-digit (suc (suc (suc zero))) = refl
is_digit-digit (suc (suc (suc (suc zero)))) = refl
is_digit-digit (suc (suc (suc (suc (suc zero))))) = refl
is_digit-digit (suc (suc (suc (suc (suc (suc zero)))))) = refl
is_digit-digit (suc (suc (suc (suc (suc (suc (suc zero))))))) = refl
is_digit-digit (suc (suc (suc (suc (suc (suc (suc (suc zero)))))))) = refl
is_digit-digit (suc (suc (suc (suc (suc (suc (suc (suc (suc d))))))))) = refl

abbrev StartsDigit : String → Type 0
StartsDigit String.[] = ⊥
StartsDigit (String.◌∷◌ c s) = is_digit c ≡ true

-- One digit in front of the others reads as one digit less to come.
digits_after-digit :
    (n : ℕ) (text : String)
    → digits_after (n / 10) (String.◌∷◌ (digit (n % 10)) text) ≡ digits_after n text
unfolding digits_after
digits_after-digit n text = rw (is_digit-digit (n % 10)) (ap (λ v. digits_after v text) (shifted n))
  where
    shifted : (n : ℕ) → n / 10 * 10 + (code (digit (n % 10)) - 48) ≡ n
    shifted n = rw (code-digit (n % 10) (omega arith)) (omega arith)

second_of :
    {i j : ℕ} {s t : String} → ◌≡◌ {A = Option (ℕ × String)} (some (i, s)) (some (j, t)) → s ≡ t
second_of h = cc

-- What the loop of `itoa` leaves: digits that read as the number, with a digit in front.
itoa_loop-reads :
    (free n left : ℕ) (text digits : String)
    → itoa_loop free n text ≡ some (left, digits)
    → (eqb n 0 ≡ false) ⊎ StartsDigit text
    → (digits_after 0 digits ≡ digits_after n text) × StartsDigit digits
unfolding itoa_loop
itoa_loop-reads zero n left text digits h first = elim (Bool-cases (eqb n 0)) [
  | inl done ↦ finished done (second_of (rw done at h)) first
  | inr more ↦ let clash = rw more at h in absurd (cc)
]
  where
    finished :
        eqb n 0 ≡ true
        → text ≡ digits
        → (eqb n 0 ≡ false) ⊎ StartsDigit text
        → (digits_after 0 digits ≡ digits_after n text) × StartsDigit digits
    finished done same (inl more) = absurd (ground arith)
    finished done same (inr d) =
        let none_left : n ≡ 0 = ground arith in (rw none_left (rw same refl), rw same at d)
itoa_loop-reads (suc free) n left text digits h first = elim (Bool-cases (eqb n 0)) [
  | inl done ↦ finished done (second_of (rw done at h)) first
  | inr more ↦
      let (reads, starts) =
        itoa_loop-reads free (n / 10) left (String.◌∷◌ (digit (n % 10)) text) digits (rw more at h)
          (inr (is_digit-digit (n % 10))) in
      (reads ∙ digits_after-digit n text, starts)
]
  where
    finished :
        eqb n 0 ≡ true
        → text ≡ digits
        → (eqb n 0 ≡ false) ⊎ StartsDigit text
        → (digits_after 0 digits ≡ digits_after n text) × StartsDigit digits
    finished done same (inl more) = absurd (ground arith)
    finished done same (inr d) =
        let none_left : n ≡ 0 = ground arith in (rw none_left (rw same refl), rw same at d)

record Digits (n : ℕ) (s : String) : Type 0 where
  reads : digits_after 0 s ≡ some n
  starts : StartsDigit s

unsigned-Digits :
    (n : ℕ) (s : String) (left : Option (ℕ × String))
    → itoa_loop 20 n "" ≡ left
    → put_sign false left ≡ some s
    → eqb n 0 ≡ false
    → Digits n s
unfolding put_sign digits_after
unsigned-Digits n s none ran h more =
    let clash : ◌≡◌ {A = Option String} none (some s) = h in absurd (cc)
unsigned-Digits n s (some (left, digits)) ran h more =
    let same : digits ≡ s = cc in
    let (reads, starts) = itoa_loop-reads 20 n left "" digits ran (inl more) in
    record { reads = rw (sym same) reads; starts = rw same at starts }

zero_Digits : Digits 0 "0"
unfolding digits_after
zero_Digits = record { reads = refl; starts = refl }

signs : (n : ℕ) → (eqb_ℤ (pos (suc n)) (pos 0) ≡ false) × (ltb_ℤ (pos (suc n)) (pos 0) ≡ false)
signs n = ground arith

itoa-Digits : (n : ℕ) (s : String) → itoa (pos n) ≡ some s → Digits n s
unfolding itoa
itoa-Digits zero s h = rw (sym (text_of h)) zero_Digits
  where
    text_of : {s t : String} → some s ≡ some t → s ≡ t
    text_of h = cc
itoa-Digits (suc n) s h =
    unsigned-Digits (suc n) s (itoa_loop 20 (suc n) "") refl (rw ((signs n).0, (signs n).1) at h)
      (ground arith)

not_empty : (c : Char) (s : String) → (String.◌∷◌ c s == "") ≡ false
not_empty c s =
    let apart : String.◌∷◌ c s ≢ "" = λ e. absurd (cc) in ground (arith, eq_iff (String.◌∷◌ c s) "")

atoi-Digits : (n : ℕ) (s : String) → n < 2 ^ 63 → Digits n s → atoi s ≡ some (pos n)
unfolding atoi magnitude
atoi-Digits n String.[] h d = absurd d.starts
atoi-Digits n (String.◌∷◌ c s) h d =
    let (not_minus, not_plus) = no_sign (code c) d.starts in
    rw not_minus (rw not_plus (rw (not_empty c s) (rw d.reads (in_range n h))))
  where
    no_sign : (n : ℕ) → (leb 48 n && leb n 57) ≡ true → (eqb n 45 ≡ false) × (eqb n 43 ≡ false)
    no_sign n h = ground arith

    in_range : (n : ℕ) → n < 2 ^ 63 → positive (some n) ≡ some (pos n)
    in_range n h = ground arith

-- A number of an int64 that is not negative, written by itoa of memory.go into a variable of the
-- environment, is what Int reads back, whatever its default.
pub int-itoa :
    (env : Environment) (key s : String) (def : ℤ) (n : ℕ)
    → n < 2 ^ 63
    → itoa (pos n) ≡ some s
    → env key ≡ some s
    → int env key def ≡ pos n
unfolding int
int-itoa env key s def n h written found = rw found (
    rw (nonempty s (itoa-Digits n s written).starts)
      (rw (atoi-Digits n s h (itoa-Digits n s written)) refl))
  where
    nonempty : (s : String) → StartsDigit s → (s == "") ≡ false
    nonempty String.[] h = absurd h
    nonempty (String.◌∷◌ c s) h = not_empty c s
