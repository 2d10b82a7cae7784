-- ===== src/Gateway/Auth.antt =====
-- services/gateway-go/internal/auth/apikey.go. A key set is the list of the keys put into the map.
use distributed_ml_inference.Prelude.{
  String, Bool, true, false, not, ◌||◌, List, [], ◌∷◌, keep, Elem, there, is_empty, ◌==◌,
  if◌then◌else◌, ◌≡◌, ◌≢◌, refl, ◌⊎◌, inl, inr, Bool-cases, eq_iff, arith, Elem-keep,
  Elem-of_Elem-keep, Elem-cons, Elem-cons_of_eq,
}

abbrev pub KeySet : Type 0
KeySet = List String

unfoldable pub new_key_set : List String → KeySet
new_key_set keys = keep (λ k. not (k == "")) keys

-- s[key]
unfoldable pub has : KeySet → String → Bool
has [] key = false
has (k ∷ s) key = k == key || has s key

-- The handler that answers: the next one, or the one that says 401.
unfoldable pub middleware {ℓ} : {A : Type ℓ} → KeySet → String → A → A → A
middleware s key unauthorized next =
    if is_empty s then next else if key == "" || not (has s key) then unauthorized else next

has_of_Elem : (s : KeySet) (key : String) → Elem key s → has s key ≡ true
unfolding has
has_of_Elem [] key e = elim e [ ]
has_of_Elem (k ∷ s) key e = elim (Elem-cons e) [
  | inl p ↦ ground (arith, eq_iff k key)
  | inr later ↦ let h = has_of_Elem s key later in ground (arith, eq_iff k key)
]

Elem-of_has : (s : KeySet) (key : String) → has s key ≡ true → Elem key s
unfolding has
Elem-of_has [] key h = absurd (cc)
Elem-of_has (k ∷ s) key h = elim (Bool-cases (k == key)) [
  | inl t ↦ Elem-cons_of_eq s (ground (arith, eq_iff k key))
  | inr f ↦ there (Elem-of_has s key (rw f at h))
]

not_empty : (s : KeySet) (key : String) → Elem key s → is_empty s ≡ false
not_empty [] key e = elim e [ ]
not_empty (k ∷ s) key e = refl

key_set-Elem :
    (keys : List String) (key : String) → key ≢ "" → Elem key keys → Elem key (new_key_set keys)
unfolding new_key_set
key_set-Elem keys key n e = Elem-keep (λ k. not (k == "")) keys (ground (arith, eq_iff key "")) e

-- With some key configured, a request passes if its key is one of those, and is refused if it has
-- no key or another one.
pub middleware_lem {ℓ} :
    {A : Type ℓ} (keys : List String) (configured key : String) (unauthorized next : A)
    → configured ≢ ""
    → Elem configured keys
    → (key ≢ "" → Elem key keys → middleware (new_key_set keys) key unauthorized next ≡ next)
      × ((key ≡ "") ⊎ (Elem key keys → ⊥)
          → middleware (new_key_set keys) key unauthorized next ≡ unauthorized)
unfolding middleware
middleware_lem keys configured key unauthorized next n e =
    let some_key = not_empty (new_key_set keys) configured (key_set-Elem keys configured n e) in
    (
      λ k member.
          let known = has_of_Elem (new_key_set keys) key (key_set-Elem keys key k member) in
          let present : (key == "") ≡ false = ground (arith, eq_iff key "") in
          rw some_key (rw present (rw known refl)),
      λ bad. rw some_key (refused bad (Bool-cases (has (new_key_set keys) key))),
    )
  where
    refused :
        (key ≡ "") ⊎ (Elem key keys → ⊥)
        → (has (new_key_set keys) key ≡ true) ⊎ (has (new_key_set keys) key ≡ false)
        → (if key == "" || not (has (new_key_set keys) key) then unauthorized else next)
          ≡ unauthorized
    refused bad (inr f) = elim (Bool-cases (key == "")) [
      | inl t ↦ rw t refl
      | inr g ↦ rw g (rw f refl)
    ]
    refused (inl blank) (inl t) =
        let missing : (key == "") ≡ true = ground (arith, eq_iff key "") in rw missing refl
    refused (inr unknown) (inl t) = absurd (
        unknown (
          unfold new_key_set in
          (Elem-of_Elem-keep (λ k. not (k == "")) keys (Elem-of_has (new_key_set keys) key t)).0))
