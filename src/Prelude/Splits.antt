-- ===== src/Prelude/Splits.antt =====
-- Texts cut at separators and trimmed, as Go's package strings does it.
use Prim.Native.Char.{Char, code}
use Prim.Native.Nat.{ℕ}
use Prim.Native.String.{String, ◌++◌ as text_append}
use mathlib.Core.Path.{◌≡◌, refl, ap}
use mathlib.Core.Bool.{Bool, true, false, ◌&&◌, ◌||◌}
use mathlib.Core.List.{List, [], ◌∷◌}
use native.Mathlib.Omega.{arith}
use text.Mathlib.Text.{◌==◌}
use text.Mathlib.TextLemmas.{nil-append, cons-append}
use distributed_ml_inference.Prelude.Tests.{leb, eqb, if◌then◌else◌}
use distributed_ml_inference.Prelude.Lists.{All}

-- strings.Split at a separator of one character: the pieces between its occurrences.
abbrev pub Pieces : Type 0
Pieces = String × List String

-- The first piece and the others; a character goes to the front of the first.
abbrev add_to_first : Char → Pieces → Pieces
add_to_first c (first, others) = (String.◌∷◌ c first, others)

unfoldable pub pieces : Char → String → Pieces
pieces sep String.[] = ("", [])
pieces sep (String.◌∷◌ c s) =
    let rest = pieces sep s in
    if eqb (code c) (code sep) then ("", rest.0 ∷ rest.1) else add_to_first c rest

unfoldable pub split_on : Char → String → List String
unfolding pieces
split_on sep s = let (first, others) = pieces sep s in first ∷ others

-- unicode.IsSpace
abbrev pub is_space : Char → Bool
is_space c =
    (leb 9 (code c) && leb (code c) 13)
    || eqb (code c) 32
    || eqb (code c) 0x85
    || eqb (code c) 0xa0
    || eqb (code c) 0x1680
    || (leb 0x2000 (code c) && leb (code c) 0x200a)
    || eqb (code c) 0x2028
    || eqb (code c) 0x2029
    || eqb (code c) 0x202f
    || eqb (code c) 0x205f
    || eqb (code c) 0x3000

unfoldable pub trim_left : String → String
trim_left String.[] = ""
trim_left (String.◌∷◌ c s) = let rest = trim_left s in if is_space c then rest else String.◌∷◌ c s

unfoldable pub trim_right : String → String
trim_right String.[] = ""
trim_right (String.◌∷◌ c s) =
    let rest = trim_right s in if is_space c && rest == "" then "" else String.◌∷◌ c rest

-- strings.TrimSpace
unfoldable pub trim_space : String → String
unfolding trim_left trim_right
trim_space s = trim_right (trim_left s)

-- strings.Join at one character
unfoldable pub join_with : Char → String → List String → String
join_with sep first [] = first
join_with sep first (x ∷ xs) = text_append first (String.◌∷◌ sep (join_with sep x xs))

-- No character of a text is the separator.
abbrev pub Lacks : Char → String → Type 0
Lacks sep String.[] = Unit
Lacks sep (String.◌∷◌ c s) = (eqb (code c) (code sep) ≡ false) × Lacks sep s

pieces-Lacks : (sep : Char) (s : String) → Lacks sep s → pieces sep s ≡ (s, [])
unfolding pieces
pieces-Lacks sep String.[] h = refl
pieces-Lacks sep (String.◌∷◌ c s) (h, later) = rw h (rw (pieces-Lacks sep s later) refl)

pieces_at_separator :
    (sep : Char) (t : String) → pieces sep (String.◌∷◌ sep t) ≡ ("", split_on sep t)
unfolding pieces split_on
pieces_at_separator sep t = rw (same_code (code sep)) refl
  where
    same_code : (n : ℕ) → eqb n n ≡ true
    same_code n = ground arith

pieces-join :
    (sep : Char) (s t : String)
    → Lacks sep s
    → pieces sep (text_append s (String.◌∷◌ sep t)) ≡ (s, split_on sep t)
unfolding pieces
pieces-join sep String.[] t h = rw (nil-append (String.◌∷◌ sep t)) (pieces_at_separator sep t)
pieces-join sep (String.◌∷◌ c s) t (h, later) =
    rw (cons-append c s (String.◌∷◌ sep t)) (rw h (rw (pieces-join sep s t later) refl))

pub split_on-join_with :
    (sep : Char) (first : String) (others : List String)
    → Lacks sep first
    → All (Lacks sep) others
    → split_on sep (join_with sep first others) ≡ first ∷ others
unfolding split_on join_with
split_on-join_with sep first [] h _ = rw (pieces-Lacks sep first h) refl
split_on-join_with sep first (x ∷ xs) h hs =
    rw (pieces-join sep first (join_with sep x xs) h)
      (ap (λ l. first ∷ l) (split_on-join_with sep x xs hs.0 hs.1))
