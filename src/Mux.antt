-- ===== src/Mux.antt =====
-- The part of net/http's ServeMux that the `main` functions of services/*/cmd/*/main.go use: a
-- pattern is a path after a method or alone, and a segment `{name}` of the path takes any one. The
-- path of a request stands as ServeMux takes it: clean, cut at its slashes and unescaped. No two of
-- the program's patterns match one request, so that the first that matches is the one.
pub mod Matches
pub mod Probes
use Prim.Native.Char.{code}
use distributed_ml_inference.Prelude.{
  ℕ, eqb, String, Bool, true, false, ◌&&◌, ◌||◌, Option, none, some, List, [], ◌∷◌, map, ◌==◌,
  split_on, if◌then◌else◌,
}

pub data Segment : Type 0 where
  literal wildcard : String → Segment

pub record Pattern : Type 0 where
  pub method : Option String
  pub path : List Segment

-- What stands before the last character.
unfoldable pub without_last : String → String
without_last String.[] = ""
without_last (String.◌∷◌ c s) =
    let rest = without_last s in if s == "" then "" else String.◌∷◌ c rest

unfoldable pub segment : String → Segment
unfolding without_last
segment String.[] = literal ""
segment (String.◌∷◌ c s) =
    if eqb (code c) b'{' then wildcard (without_last s) else literal (String.◌∷◌ c s)

-- A path begins with a slash.
abbrev after_slash : List String → List Segment
after_slash [] = []
after_slash (_ ∷ texts) = map segment texts

abbrev of_fields : List String → Pattern
of_fields (method ∷ path ∷ []) = record {
  method = some method;
  path = after_slash (split_on "/" path);
}
of_fields (path ∷ _) = record { method = none; path = after_slash (split_on "/" path) }
of_fields [] = record { method = none; path = [] }

unfoldable pub parse : String → Pattern
unfolding segment split_on
parse text = of_fields (split_on " " text)

-- The values of a path's wildcards, by name.
abbrev pub Values : Type 0
Values = List (String × String)

abbrev with_value : String → String → Option Values → Option Values
with_value name value none = none
with_value name value (some values) = some ((name, value) ∷ values)

unfoldable pub match_path : List Segment → List String → Option Values
match_path [] [] = some []
match_path [] (_ ∷ _) = none
match_path (_ ∷ _) [] = none
match_path (literal text ∷ path) (part ∷ parts) =
    let rest = match_path path parts in if part == text then rest else none
match_path (wildcard name ∷ path) (part ∷ parts) = with_value name part (match_path path parts)

-- A pattern for GET takes HEAD too.
abbrev pub takes_method : Option String → String → Bool
takes_method none method = true
takes_method (some wanted) method = method == wanted || (wanted == "GET" && method == "HEAD")

-- A request goes to a handler with the values of its path, or gets 405 where its path has a handler
-- of another method, or 404.
pub data Target (H : Type 0) : Type 0 where
  found : H → Values → Target H
  method_not_allowed not_found : Target H

abbrev matched : {H : Type 0} → Bool → H → Option Values → Target H → Target H
matched takes h none other = other
matched true h (some values) other = found h values
matched false h (some values) (found h' values') = found h' values'
matched false h (some values) method_not_allowed = method_not_allowed
matched false h (some values) not_found = method_not_allowed

-- A ServeMux is the handlers that it was given, each with its pattern.
unfoldable pub target : {H : Type 0} → List (Pattern × H) → String → List String → Target H
target [] method parts = not_found
target ((pattern, h) ∷ routes) method parts =
    let other = target routes method parts in
    matched (takes_method pattern.method method) h (match_path pattern.path parts) other

-- r.PathValue
unfoldable pub path_value : String → Values → String
path_value name [] = ""
path_value name ((key, value) ∷ values) = if key == name then value else path_value name values

-- The handlers `hs`, each under its pattern.
unfoldable pub mux_of : {H : Type 0} → (H → String) → List H → List (Pattern × H)
unfolding parse
mux_of pattern_of hs = map (λ h. (parse (pattern_of h), h)) hs
