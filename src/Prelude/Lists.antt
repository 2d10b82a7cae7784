-- ===== src/Prelude/Lists.antt =====
-- Lists measured by native numbers, and membership and predicates without truncation.
use Prim.Native.Nat.{ℕ, suc, ◌+◌, ◌≤◌}
use mathlib.Core.Path.{◌≡◌, refl}
use mathlib.Core.Logic.{◌⊎◌, inl, inr}
use mathlib.Core.Bool.{Bool, true, false}
use mathlib.Core.Option.{Option, none, some}
use mathlib.Core.List.{List, [], ◌∷◌, ◌++◌}
use native.Mathlib.Omega.{arith}
use distributed_ml_inference.Prelude.Tests.{Bool-cases, if◌then◌else◌}

module _ {ℓ} {A : Type ℓ} where
  abbrev pub length : List A → ℕ
  length [] = 0
  length (x ∷ xs) = suc (length xs)

  pub length-append : (xs ys : List A) → length (xs ++ ys) ≡ length xs + length ys
  length-append [] ys = omega arith
  length-append (x ∷ xs) ys = omega (arith, length-append xs ys)

  abbrev pub head? : List A → Option A
  head? [] = none
  head? (x ∷ xs) = some x

  abbrev pub is_empty : List A → Bool
  is_empty [] = true
  is_empty (x ∷ xs) = false

  -- The elements that pass a test, in their order.
  unfoldable pub keep : (A → Bool) → List A → List A
  keep p [] = []
  keep p (x ∷ xs) = let rest = keep p xs in if p x then x ∷ rest else rest

  -- An occurrence of an element.
  pub data Elem (a : A) : List A → Type ℓ where
    here : {xs : List A} → Elem a (a ∷ xs)
    there : {x : A} {xs : List A} → Elem a xs → Elem a (x ∷ xs)

  abbrev pub All {κ} : (A → Type κ) → List A → Type κ
  All P [] = Unit
  All P (x ∷ xs) = P x × All P xs

module _ {ℓ} {A : Type ℓ} where
  pub Elem-cons : {a x : A} {xs : List A} → Elem a (x ∷ xs) → (a ≡ x) ⊎ Elem a xs
  Elem-cons here = inl refl
  Elem-cons (there e) = inr e

  pub Elem-cons_of_eq : {a x : A} (xs : List A) → a ≡ x → Elem a (x ∷ xs)
  Elem-cons_of_eq xs h = rw h here

  pub All-elem {κ} : (P : A → Type κ) {a : A} (xs : List A) → All P xs → Elem a xs → P a
  All-elem P [] h e = elim e [ ]
  All-elem P (x ∷ xs) h here = h.0
  All-elem P (x ∷ xs) h (there e) = All-elem P xs h.1 e

  pub All_of_elem {κ} : (P : A → Type κ) (xs : List A) → ((a : A) → Elem a xs → P a) → All P xs
  All_of_elem P [] h = tt
  All_of_elem P (x ∷ xs) h = (h x here, All_of_elem P xs (λ a e. h a (there e)))

  -- `keep` keeps exactly the elements that pass.
  pub Elem-keep : (p : A → Bool) {a : A} (xs : List A) → p a ≡ true → Elem a xs → Elem a (keep p xs)
  unfolding keep
  Elem-keep p [] h e = elim e [ ]
  Elem-keep p (x ∷ xs) h here = rw h here
  Elem-keep p (x ∷ xs) h (there e) = elim (Bool-cases (p x)) [
    | inl t ↦ rw t (there (Elem-keep p xs h e))
    | inr f ↦ rw f (Elem-keep p xs h e)
  ]

  Elem-keep_step :
      (p : A → Bool) {a x : A} {xs : List A}
      → p x ≡ true
      → (Elem a (keep p xs) → Elem a xs × (p a ≡ true))
      → Elem a (x ∷ keep p xs)
      → Elem a (x ∷ xs) × (p a ≡ true)
  Elem-keep_step p t ih here = (here, t)
  Elem-keep_step p t ih (there e) = (there (ih e).0, (ih e).1)

  pub Elem-of_Elem-keep :
      (p : A → Bool) {a : A} (xs : List A) → Elem a (keep p xs) → Elem a xs × (p a ≡ true)
  unfolding keep
  Elem-of_Elem-keep p [] e = elim e [ ]
  Elem-of_Elem-keep p (x ∷ xs) e = elim (Bool-cases (p x)) [
    | inl t ↦ Elem-keep_step p t (Elem-of_Elem-keep p xs) (rw t at e)
    | inr f ↦ let (e', h) = Elem-of_Elem-keep p xs (rw f at e) in (there e', h)
  ]

  pub length-keep-le : (p : A → Bool) (xs : List A) → length (keep p xs) ≤ length xs
  unfolding keep
  length-keep-le p [] = omega arith
  length-keep-le p (x ∷ xs) = ground (arith, length-keep-le p xs)

  -- The first element that passes a test.
  unfoldable pub find_first : (A → Bool) → List A → Option A
  find_first p [] = none
  find_first p (x ∷ xs) = if p x then some x else find_first p xs
