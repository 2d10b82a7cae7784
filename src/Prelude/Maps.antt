-- ===== src/Prelude/Maps.antt =====
-- Maps with texts for keys, as association lists. A Go map is read here in one fixed order.
use Prim.Native.String.{String}
use mathlib.Core.Path.{◌≡◌, refl, sym, ap₂, subst}
use mathlib.Core.Logic.{◌⊎◌, inl, inr}
use mathlib.Core.Option.{Option, none, some}
use mathlib.Core.List.{List, [], ◌∷◌}
use native.Mathlib.Omega.{arith}
use text.Mathlib.Text.{◌==◌}
use text.Mathlib.TextEquality.{eq_iff}
use distributed_ml_inference.Prelude.Tests.{Bool-cases, if◌then◌else◌}
use distributed_ml_inference.Prelude.Lists.{Elem, here, there, All, Elem-cons, Elem-cons_of_eq}

-- No key stands twice.
abbrev pub Distinct : List String → Type 0
Distinct [] = Unit
Distinct (k ∷ ks) = (¬ Elem k ks) × Distinct ks

module _ {ℓ} {V : Type ℓ} where
  -- m[name], with its `ok`
  unfoldable pub lookup : String → List (String × V) → Option V
  lookup name [] = none
  lookup name ((key, x) ∷ rest) = if key == name then some x else lookup name rest

  -- m[name] = x, in place where the key is there and behind the others where it is not
  unfoldable pub insert : String → V → List (String × V) → List (String × V)
  insert name x [] = (name, x) ∷ []
  insert name x ((key, y) ∷ rest) =
      if key == name then (key, x) ∷ rest else (key, y) ∷ insert name x rest

  pub lookup-insert :
      (written read : String) (x : V) (entries : List (String × V))
      → lookup read (insert written x entries)
        ≡ (if written == read then some x else lookup read entries)
  unfolding insert lookup
  lookup-insert written read x ((key, y) ∷ rest) =
      let later = lookup-insert written read x rest in
      ground (eq_iff key written, eq_iff written read, eq_iff key read, later, arith)
  lookup-insert written read x [] = refl

  abbrev pub values : List (String × V) → List V
  values [] = []
  values ((k, v) ∷ m) = v ∷ values m

  abbrev pub keys : List (String × V) → List String
  keys [] = []
  keys ((k, v) ∷ m) = k ∷ keys m

module _ {ℓ} {V : Type ℓ} where
  Elem-keys-insert :
      (j k : String) (v : V) (m : List (String × V))
      → Elem j (keys (insert k v m))
      → (j ≡ k) ⊎ Elem j (keys m)
  unfolding insert
  Elem-keys-insert j k v [] e = Elem-cons e
  Elem-keys-insert j k v ((i, w) ∷ m) e = elim (Bool-cases (i == k)) [
    | inl t ↦ inr (rw t at e)
    | inr f ↦ elim (Elem-cons (rw f at e)) [
      | inl same ↦ inr (Elem-cons_of_eq _ same)
      | inr later ↦ elim (Elem-keys-insert j k v m later) [
        | inl new ↦ inl new
        | inr old ↦ inr (there old)
      ]
    ]
  ]

  pub Distinct-insert :
      (k : String) (v : V) (m : List (String × V))
      → Distinct (keys m)
      → Distinct (keys (insert k v m))
  unfolding insert
  Distinct-insert k v [] d = ((λ e. elim e [ ]), tt)
  Distinct-insert k v ((i, w) ∷ m) d = elim (Bool-cases (i == k)) [
    | inl t ↦ rw t d
    | inr f ↦ rw f (
      (λ e. elim (Elem-keys-insert i k v m e) [
        | inl same ↦ cc (f, (eq_iff i k).1 same)
        | inr old ↦ d.0 old
      ]),
      Distinct-insert k v m d.1,
    )
  ]

  -- Where the value fits its key, `insert` keeps a property of the entries.
  pub All-insert {κ} :
      (P : String × V → Type κ) (k : String) (v : V) (m : List (String × V))
      → P (k, v)
      → All P m
      → All P (insert k v m)
  unfolding insert
  All-insert P k v [] p h = (p, tt)
  All-insert P k v ((i, w) ∷ m) p h = elim (Bool-cases (i == k)) [
    | inl t ↦ rw t (subst (λ (j : String). P (j, v)) (sym ((eq_iff i k).0 t)) p, h.1)
    | inr f ↦ rw f (h.0, All-insert P k v m p h.1)
  ]

  value_of_some : {v w : V} → some v ≡ some w → v ≡ w
  value_of_some h = cc

  pub Elem-of_lookup :
      (k : String) {v : V} (m : List (String × V)) → lookup k m ≡ some v → Elem (k, v) m
  unfolding lookup
  Elem-of_lookup k [] h = cc
  Elem-of_lookup k ((i, w) ∷ m) h = elim (Bool-cases (i == k)) [
    | inl t ↦ Elem-cons_of_eq m (
        ap₂ (λ (a : String) (b : V). (a, b)) (sym ((eq_iff i k).0 t))
          (value_of_some (sym (rw t at h))))
    | inr f ↦ there (Elem-of_lookup k m (rw f at h))
  ]

  Elem-keys_of_Elem : {k : String} {v : V} (m : List (String × V)) → Elem (k, v) m → Elem k (keys m)
  Elem-keys_of_Elem [] e = elim e [ ]
  Elem-keys_of_Elem ((i, w) ∷ m) here = here
  Elem-keys_of_Elem ((i, w) ∷ m) (there e) = there (Elem-keys_of_Elem m e)
