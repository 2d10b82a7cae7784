-- ===== src/Queue/Itoa.antt =====
-- `itoa` of shared/pkg/queue/memory.go, which numbers the messages.
use Prim.Native.Char.{Char, code}
use native.Mathlib.Nat.{pow-suc}
use distributed_ml_inference.Prelude.{
  ℕ, zero, suc, ◌+◌, ◌-◌, ◌*◌, ◌/◌, ◌%◌, ◌^◌, ◌≤◌, ◌<◌, ℤ, pos, negsuc, pos_part, ◌-ℤ◌, sub64,
  wrap64, neg_part, ltb_ℤ, eqb_ℤ, eqb, IsInt64, ◌≡◌, refl, ◌∙◌, sym, ap, String, Option, none, some,
  Bool, true, false, Bool-cases, inl, inr, if◌then◌else◌, arith,
}

-- byte('0' + d), for a digit d
unfoldable pub digit : ℕ → Char
digit zero = "0"
digit (suc zero) = "1"
digit (suc (suc zero)) = "2"
digit (suc (suc (suc zero))) = "3"
digit (suc (suc (suc (suc zero)))) = "4"
digit (suc (suc (suc (suc (suc zero))))) = "5"
digit (suc (suc (suc (suc (suc (suc zero)))))) = "6"
digit (suc (suc (suc (suc (suc (suc (suc zero))))))) = "7"
digit (suc (suc (suc (suc (suc (suc (suc (suc zero)))))))) = "8"
digit _ = "9"

-- The loop `for n > 0`: `i` bytes of the buffer are free, `text` is what stands in the others.
-- `none` is the panic of an index out of range.
unfoldable pub itoa_loop : ℕ → ℕ → String → Option (ℕ × String)
unfolding digit
itoa_loop zero n text = if eqb n 0 then some (zero, text) else none
itoa_loop (suc i) n text =
    let rest = itoa_loop i (n / 10) (String.◌∷◌ (digit (n % 10)) text) in
    if eqb n 0 then some (suc i, text) else rest

-- The sign, written before the digits.
unfoldable pub put_sign : Bool → Option (ℕ × String) → Option String
put_sign neg none = none
put_sign false (some (i, text)) = some text
put_sign true (some (zero, text)) = none
put_sign true (some (suc i, text)) = some (String.◌∷◌ "-" text)

-- `-n` is the int64 negation. The loop runs while n > 0, so on the positive part.
unfoldable pub itoa : ℤ → Option String
itoa n =
    if eqb_ℤ n (pos 0)
    then some "0"
    else let neg = ltb_ℤ n (pos 0) in
      let m = if neg then sub64 (pos 0) n else n in put_sign neg (itoa_loop 20 (pos_part m) "")

-- The number that decimal digits stand for, read after the number `v`.
abbrev pub value_after : ℕ → String → ℕ
value_after v String.[] = v
value_after v (String.◌∷◌ c s) = value_after (v * 10 + (code c - 48)) s

pub code-digit : (d : ℕ) → d < 10 → code (digit d) - 48 ≡ d
unfolding digit
code-digit zero h = refl
code-digit (suc zero) h = refl
code-digit (suc (suc zero)) h = refl
code-digit (suc (suc (suc zero))) h = refl
code-digit (suc (suc (suc (suc zero)))) h = refl
code-digit (suc (suc (suc (suc (suc zero))))) h = refl
code-digit (suc (suc (suc (suc (suc (suc zero)))))) h = refl
code-digit (suc (suc (suc (suc (suc (suc (suc zero))))))) h = refl
code-digit (suc (suc (suc (suc (suc (suc (suc (suc zero)))))))) h = refl
code-digit (suc (suc (suc (suc (suc (suc (suc (suc (suc zero))))))))) h = refl
code-digit (suc (suc (suc (suc (suc (suc (suc (suc (suc (suc d)))))))))) h = absurd (omega arith)

record Written (free d n : ℕ) (text : String) : Type 0 where
  left : ℕ
  digits : String
  ran : itoa_loop free n text ≡ some (left, digits)
  room : d ≤ left
  reads : value_after 0 digits ≡ value_after n text

Written-zero : (free d n : ℕ) (text : String) → n ≡ 0 → d ≤ free → Written free d n text
unfolding itoa_loop
Written-zero zero d n text none_left h = record {
  left = zero;
  digits = text;
  ran = rw none_left;
  room = h;
  reads = rw none_left;
}
Written-zero (suc free) d n text none_left h = record {
  left = suc free;
  digits = text;
  ran = rw none_left;
  room = h;
  reads = rw none_left;
}

shift_digit : (n : ℕ) → n / 10 * 10 + (code (digit (n % 10)) - 48) ≡ n
shift_digit n = rw (code-digit (n % 10) (omega arith)) (omega arith)

-- With n < 10^k and k + d bytes free the loop does not panic, leaves d bytes free at least, and
-- writes n.
itoa_loop-Written :
    (k d free n : ℕ) (text : String) → n < 10 ^ k → k + d ≡ free → Written free d n text
unfolding itoa_loop
itoa_loop-Written zero d free n text h same = Written-zero free d n text (omega arith) (omega arith)
itoa_loop-Written (suc k) d zero n text h same = absurd (omega arith)
itoa_loop-Written (suc k) d (suc free) n text h same = elim (Bool-cases (eqb n 0)) [
  | inl zero_left ↦ Written-zero (suc free) d n text (ground arith) (omega arith)
  | inr more ↦
      let rest =
        itoa_loop-Written k d free (n / 10) (String.◌∷◌ (digit (n % 10)) text)
          (omega (arith, pow-suc 10 k)) (omega arith) in
      record {
        left = rest.left;
        digits = rest.digits;
        ran = rw (itoa_loop, more) rest.ran;
        room = rest.room;
        reads = rest.reads ∙ rw (shift_digit n);
      }
]

-- A text is the decimal form of an integer: its digits, behind a minus sign if it is negative.
abbrev pub IsDecimal : String → ℤ → Type 0
IsDecimal s (pos n) = value_after 0 s ≡ n
IsDecimal s (negsuc n) = (t : String) × (s ≡ String.◌∷◌ "-" t) × (value_after 0 t ≡ suc n)

negate_small : (n : ℕ) → suc n < 2 ^ 63 → sub64 (pos 0) (negsuc n) ≡ pos (suc n)
unfolding ◌-ℤ◌ wrap64
negate_small n h = ground arith

minus_sign : (i : ℕ) (s : String) → 1 ≤ i → put_sign true (some (i, s)) ≡ some (String.◌∷◌ "-" s)
unfolding put_sign
minus_sign zero s h = absurd (omega arith)
minus_sign (suc i) s h = refl

signs : (n : ℕ) → (eqb_ℤ (pos (suc n)) (pos 0) ≡ false) × (ltb_ℤ (pos (suc n)) (pos 0) ≡ false)
signs n = ground arith

minus_signs : (n : ℕ) → (eqb_ℤ (negsuc n) (pos 0) ≡ false) × (ltb_ℤ (negsuc n) (pos 0) ≡ true)
minus_signs n = ground arith

-- Every int64 but the least is written without a panic, in decimal form.
pub itoa-IsDecimal :
    (n : ℤ) → IsInt64 n → neg_part n < 2 ^ 63 → (s : String) × (itoa n ≡ some s) × IsDecimal s n
unfolding itoa put_sign
itoa-IsDecimal (pos zero) h k = ("0", refl, refl)
itoa-IsDecimal (pos (suc n)) h k =
    let w = itoa_loop-Written 19 1 20 (suc n) "" (omega arith) (omega arith) in
    (w.digits, simp ((signs n).0, (signs n).1, w.ran), w.reads)
itoa-IsDecimal (negsuc n) h k =
    let w = itoa_loop-Written 19 1 20 (suc n) "" (omega arith) (omega arith) in
    (
      String.◌∷◌ "-" w.digits,
      simp ((minus_signs n).0, (minus_signs n).1, negate_small n k, w.ran)
          (minus_sign w.left w.digits w.room),
      (w.digits, refl, w.reads),
    )

text_of_some : {s t : String} → some s ≡ some t → s ≡ t
text_of_some h = cc

-- Two numbers from 0 up, below 2^63, that are written the same are the same.
pub itoa_injective : (m n : ℕ) → m < 2 ^ 63 → n < 2 ^ 63 → itoa (pos m) ≡ itoa (pos n) → m ≡ n
itoa_injective m n hm hn same =
    let (s, es, vs) = itoa-IsDecimal (pos m) (hm, omega arith) (omega arith) in
    let (t, et, vt) = itoa-IsDecimal (pos n) (hn, omega arith) (omega arith) in
    sym vs ∙ ap (value_after 0) (text_of_some (sym es ∙ same ∙ et)) ∙ vt
