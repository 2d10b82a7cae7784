-- ===== src/Gateway/Entry/Keys.antt =====
-- splitCSV of main.go and the key set that it gives.
use Prim.Native.Char.{Char}
use text.Mathlib.TextLemmas.{nil-append, cons-append}
use distributed_ml_inference.Prelude.{
  String, false, some, List, [], ◌∷◌, map, ◌==◌, ◌≡◌, ◌≢◌, refl, ◌⊎◌, inl, inr, ap, trim_space,
  trim_left, trim_right, text_append, sym, ◌∙◌, Elem-cons, join_with, Lacks, split_on-join_with,
  All, Elem, eq_iff, arith,
}
use distributed_ml_inference.Config.{Environment, string}
use distributed_ml_inference.Gateway.Auth.{new_key_set, middleware, middleware_lem}
use distributed_ml_inference.Gateway.Entry.{split_csv, keys_of}

-- Texts without commas, joined by commas, are split into the same texts, trimmed, unless all that
-- is joined is the empty text.
pub split_csv-join_with :
    (first : String) (others : List String)
    → Lacks "," first
    → All (Lacks ",") others
    → join_with "," first others ≢ ""
    → split_csv (join_with "," first others) ≡ map trim_space (first ∷ others)
unfolding split_csv
split_csv-join_with first others h hs nonempty =
    let present : (join_with "," first others == "") ≡ false =
      ground (arith, eq_iff (join_with "," first others) "") in
    rw present (ap (map trim_space) (split_on-join_with "," first others h hs))

not_cons : (c : Char) (s : String) → String.◌∷◌ c s ≢ ""
not_cons c s e = absurd (cc)

join-cons : (first rest : String) → text_append first (String.◌∷◌ "," rest) ≢ ""
join-cons String.[] rest e = not_cons "," rest (sym (nil-append (String.◌∷◌ "," rest)) ∙ e)
join-cons (String.◌∷◌ c s) rest e =
    not_cons c (text_append s (String.◌∷◌ "," rest))
      (sym (cons-append c s (String.◌∷◌ "," rest)) ∙ e)

trim_blank : (s : String) → s ≡ "" → trim_space s ≡ ""
unfolding trim_space trim_left trim_right
trim_blank s h = rw h refl

join_with-nonempty :
    (first configured : String) (others : List String)
    → configured ≢ ""
    → Elem configured (map trim_space (first ∷ others))
    → join_with "," first others ≢ ""
unfolding join_with
join_with-nonempty first configured [] blank member e = elim (Elem-cons member) [
  | inl same ↦ blank (same ∙ trim_blank first e)
  | inr later ↦ elim later [ ]
]
join_with-nonempty first configured (x ∷ xs) blank member e = join-cons first (join_with "," x xs) e

string_set :
    (env : Environment) (key def v : String) → env key ≡ some v → v ≢ "" → string env key def ≡ v
unfolding string
string_set env key def v found nonempty =
    let present : (v == "") ≡ false = ground (arith, eq_iff v "") in
    rw (found, string) (rw present refl)

keys_of_joined :
    (env : Environment) (first : String) (others : List String)
    → env "GATEWAY_API_KEYS" ≡ some (join_with "," first others)
    → Lacks "," first
    → All (Lacks ",") others
    → join_with "," first others ≢ ""
    → keys_of env ≡ new_key_set (map trim_space (first ∷ others))
unfolding keys_of
keys_of_joined env first others found h hs nonempty =
    ap (λ v. new_key_set (split_csv v))
      (string_set env "GATEWAY_API_KEYS" "" (join_with "," first others) found nonempty)
    ∙ ap new_key_set (split_csv-join_with first others h hs nonempty)

-- With the variable GATEWAY_API_KEYS set to keys that are joined by commas, one of which is not
-- blank, a request passes if its key is not empty and one of those, trimmed, and is answered with
-- 401 if it has no key or another one.
pub keys_of-admits :
    {A : Type 0} (env : Environment) (first configured key : String) (others : List String)
    (refused next : A)
    → env "GATEWAY_API_KEYS" ≡ some (join_with "," first others)
    → Lacks "," first
    → All (Lacks ",") others
    → configured ≢ ""
    → Elem configured (map trim_space (first ∷ others))
    → (key ≢ ""
        → Elem key (map trim_space (first ∷ others))
        → middleware (keys_of env) key refused next ≡ next)
      × ((key ≡ "") ⊎ (Elem key (map trim_space (first ∷ others)) → ⊥)
          → middleware (keys_of env) key refused next ≡ refused)
keys_of-admits env first configured key others refused next found h hs blank member =
    let nonempty = join_with-nonempty first configured others blank member in
    rw (keys_of_joined env first others found h hs nonempty)
      (middleware_lem (map trim_space (first ∷ others)) configured key refused next blank member)
