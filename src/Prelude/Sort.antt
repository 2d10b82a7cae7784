-- ===== src/Prelude/Sort.antt =====
-- Insertion sort by a Boolean order, and permutations without truncation. It stands for Go's
-- `sort.Slice`.
use mathlib.Core.Path.{◌≡◌, refl, ap, ◌∙◌}
use mathlib.Core.Logic.{◌⊎◌, inl, inr}
use mathlib.Core.Bool.{Bool, true}
use mathlib.Core.List.{List, [], ◌∷◌}
use native.Mathlib.Omega.{arith}
use distributed_ml_inference.Prelude.Tests.{Bool-cases, if◌then◌else◌}
use distributed_ml_inference.Prelude.Lists.{length, Elem, here, there, All, keep}

module _ {ℓ} {A : Type ℓ} where
  -- One list is a rearrangement of the other.
  pub data Rearranged : List A → List A → Type ℓ where
    done : Rearranged [] []
    cons : (x : A) {xs ys : List A} → Rearranged xs ys → Rearranged (x ∷ xs) (x ∷ ys)
    swap : (x y : A) (xs : List A) → Rearranged (x ∷ y ∷ xs) (y ∷ x ∷ xs)
    both : {xs ys zs : List A} → Rearranged xs ys → Rearranged ys zs → Rearranged xs zs

  pub Rearranged-refl : (xs : List A) → Rearranged xs xs
  Rearranged-refl [] = done
  Rearranged-refl (x ∷ xs) = cons x (Rearranged-refl xs)

  pub Elem-Rearranged : {a : A} {xs ys : List A} → Rearranged xs ys → Elem a xs → Elem a ys
  Elem-Rearranged done e = elim e [ ]
  Elem-Rearranged (cons x r) here = here
  Elem-Rearranged (cons x r) (there e) = there (Elem-Rearranged r e)
  Elem-Rearranged (swap x y xs) here = there here
  Elem-Rearranged (swap x y xs) (there here) = here
  Elem-Rearranged (swap x y xs) (there (there e)) = there (there e)
  Elem-Rearranged (both r s) e = Elem-Rearranged s (Elem-Rearranged r e)

  pub Rearranged-symm : {xs ys : List A} → Rearranged xs ys → Rearranged ys xs
  Rearranged-symm done = done
  Rearranged-symm (cons x r) = cons x (Rearranged-symm r)
  Rearranged-symm (swap x y xs) = swap y x xs
  Rearranged-symm (both r s) = both (Rearranged-symm s) (Rearranged-symm r)

  pub keep-Rearranged :
      (p : A → Bool) {xs ys : List A} → Rearranged xs ys → Rearranged (keep p xs) (keep p ys)
  unfolding keep
  keep-Rearranged p done = done
  keep-Rearranged p (cons x r) = elim (Bool-cases (p x)) [
    | inl t ↦ rw t (cons x (keep-Rearranged p r))
    | inr f ↦ rw f (keep-Rearranged p r)
  ]
  keep-Rearranged p (swap x y xs) = elim (Bool-cases (p x)) [
    | inl t ↦ elim (Bool-cases (p y)) [
      | inl u ↦ rw (t, u) (swap x y (keep p xs))
      | inr g ↦ rw (t, g) (Rearranged-refl _)
    ]
    | inr f ↦ rw f (Rearranged-refl _)
  ]
  keep-Rearranged p (both r s) = both (keep-Rearranged p r) (keep-Rearranged p s)

  pub length-Rearranged : {xs ys : List A} → Rearranged xs ys → length xs ≡ length ys
  length-Rearranged done = refl
  length-Rearranged (cons x r) = omega (arith, length-Rearranged r)
  length-Rearranged (swap x y xs) = refl
  length-Rearranged (both r s) = omega (arith, length-Rearranged r, length-Rearranged s)

module _ {ℓ} {A : Type ℓ} (before : A → A → Bool) where
  unfoldable pub insert_sorted : A → List A → List A
  insert_sorted x [] = x ∷ []
  insert_sorted x (y ∷ ys) = if before x y then x ∷ y ∷ ys else y ∷ insert_sorted x ys

  unfoldable pub sort : List A → List A
  unfolding insert_sorted
  sort [] = []
  sort (x ∷ xs) = insert_sorted x (sort xs)

  abbrev pub IsSorted : List A → Type ℓ
  IsSorted [] = Unit
  IsSorted (x ∷ xs) = All (λ y. before x y ≡ true) xs × IsSorted xs

  insert_sorted-Rearranged : (x : A) (ys : List A) → Rearranged (x ∷ ys) (insert_sorted x ys)
  unfolding insert_sorted
  insert_sorted-Rearranged x [] = Rearranged-refl (x ∷ [])
  insert_sorted-Rearranged x (y ∷ ys) = elim (Bool-cases (before x y)) [
    | inl t ↦ rw t (Rearranged-refl _)
    | inr f ↦ rw f (both (swap x y ys) (cons y (insert_sorted-Rearranged x ys)))
  ]

  -- Sorting rearranges.
  pub sort-Rearranged : (xs : List A) → Rearranged xs (sort xs)
  unfolding sort
  sort-Rearranged [] = done
  sort-Rearranged (x ∷ xs) =
      both (cons x (sort-Rearranged xs)) (insert_sorted-Rearranged x (sort xs))

-- The order is total and transitive.
module _ {ℓ} {A : Type ℓ} (before : A → A → Bool)
    (total : (x y : A) → (before x y ≡ true) ⊎ (before y x ≡ true))
    (trans : (x y z : A) → before x y ≡ true → before y z ≡ true → before x z ≡ true) where
  weaken_bound :
      (x y : A) (zs : List A)
      → before x y ≡ true
      → All (λ z. before y z ≡ true) zs
      → All (λ z. before x z ≡ true) zs
  weaken_bound x y [] h k = tt
  weaken_bound x y (z ∷ zs) h k = (trans x y z h k.0, weaken_bound x y zs h k.1)

  bound_insert :
      (w x : A) (ys : List A)
      → before w x ≡ true
      → All (λ z. before w z ≡ true) ys
      → All (λ z. before w z ≡ true) (insert_sorted before x ys)
  unfolding insert_sorted
  bound_insert w x [] h k = (h, tt)
  bound_insert w x (y ∷ ys) h k = elim (Bool-cases (before x y)) [
    | inl t ↦ rw t (h, k)
    | inr f ↦ rw f (k.0, bound_insert w x ys h k.1)
  ]

  insert_sorted-IsSorted :
      (x : A) (ys : List A) → IsSorted before ys → IsSorted before (insert_sorted before x ys)
  unfolding insert_sorted
  insert_sorted-IsSorted x [] s = (tt, tt)
  insert_sorted-IsSorted x (y ∷ ys) s = elim (Bool-cases (before x y)) [
    | inl t ↦ rw t ((t, weaken_bound x y ys t s.0), s)
    | inr f ↦
        rw f (bound_insert y x ys (ground (arith, total x y)) s.0, insert_sorted-IsSorted x ys s.1)
  ]

  -- The result of a sort is sorted.
  pub sort-IsSorted : (xs : List A) → IsSorted before (sort before xs)
  unfolding sort
  sort-IsSorted [] = tt
  sort-IsSorted (x ∷ xs) = insert_sorted-IsSorted x (sort before xs) (sort-IsSorted xs)

  insert_sorted_comm :
      (x y : A) (zs : List A)
      → (before x y ≡ true → before y x ≡ true → x ≡ y)
      → insert_sorted before x (insert_sorted before y zs)
        ≡ insert_sorted before y (insert_sorted before x zs)
  unfolding insert_sorted
  insert_sorted_comm x y [] anti = ground (arith, total x y)
  insert_sorted_comm x y (z ∷ zs) anti =
      ground (arith, total x y, trans x y z, trans y x z, insert_sorted_comm x y zs anti)

  -- Where no two elements are tied, the order of the input does not matter.
  pub sort-Rearranged_eq :
      {xs ys : List A}
      → Rearranged xs ys
      → ((a b : A) → Elem a xs → Elem b xs → before a b ≡ true → before b a ≡ true → a ≡ b)
      → sort before xs ≡ sort before ys
  unfolding sort
  sort-Rearranged_eq done anti = refl
  sort-Rearranged_eq (cons x r) anti =
      ap (insert_sorted before x)
        (sort-Rearranged_eq r (λ a b ea eb. anti a b (there ea) (there eb)))
  sort-Rearranged_eq (swap x y xs) anti =
      insert_sorted_comm x y (sort before xs) (anti x y here (there here))
  sort-Rearranged_eq (both r s) anti =
      sort-Rearranged_eq r anti
      ∙ sort-Rearranged_eq s (λ a b ea eb.
        anti a b (Elem-Rearranged (Rearranged-symm r) ea) (Elem-Rearranged (Rearranged-symm r) eb))
