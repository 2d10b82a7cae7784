-- ===== src/Mux/Matches.antt =====
-- What it means that a mux takes a request to a handler.
use distributed_ml_inference.Prelude.{
  String, Bool, true, false, Bool-cases, Option, none, some, Option-cases, List, [], ◌∷◌, Elem,
  here, there, Elem-cons, ◌==◌, eq_iff, ◌≡◌, refl, sym, ap, ◌∙◌, map, inl, inr, ◌⊎◌, arith,
}
use distributed_ml_inference.Mux.{
  Segment, literal, wildcard, Pattern, Values, match_path, takes_method, Target, found,
  method_not_allowed, not_found, matched, target, parse, mux_of,
}

-- A path of a pattern, the parts of a path that it matches, and the values of its wildcards.
pub data Matches : List Segment → List String → Values → Type 0 where
  ended : Matches [] [] []
  same :
      {path : List Segment} {parts : List String} {values : Values} (text : String)
      → Matches path parts values
      → Matches (literal text ∷ path) (text ∷ parts) values
  any :
      {path : List Segment} {parts : List String} {values : Values} (name part : String)
      → Matches path parts values
      → Matches (wildcard name ∷ path) (part ∷ parts) ((name, part) ∷ values)

never : {X : Type 0} {vs : Values} → ◌≡◌ {A = Option Values} none (some vs) → X
never h = absurd (cc)

some_inj : {a b : Values} → ◌≡◌ {A = Option Values} (some a) (some b) → a ≡ b
some_inj h = cc

pub match_path-Matches :
    (path : List Segment) (parts : List String) (values : Values)
    → match_path path parts ≡ some values
    → Matches path parts values
unfolding match_path
match_path-Matches [] [] values h = rw (sym (some_inj h)) ended
match_path-Matches [] (_ ∷ _) values h = never h
match_path-Matches (literal _ ∷ _) [] values h = never h
match_path-Matches (wildcard _ ∷ _) [] values h = never h
match_path-Matches (literal text ∷ path) (part ∷ parts) values h =
    elim (Bool-cases (part == text)) [
      | inl t ↦
          let e : part ≡ text = ground (arith, eq_iff part text) in
          rw e (same text (match_path-Matches path parts values (rw t at h)))
      | inr f ↦ never (rw f at h)
    ]
match_path-Matches (wildcard name ∷ path) (part ∷ parts) values h =
    elim (Option-cases (match_path path parts)) [
      | inl f ↦ never (rw f at h)
      | inr (vs, t) ↦
          rw (sym (some_inj (rw t at h))) (any name part (match_path-Matches path parts vs t))
    ]

-- The methods of a read, which net/http serves with one handler.
pub data Reads : String → Type 0 where
  get : Reads "GET"
  head : Reads "HEAD"

pub reads : (method : String) → takes_method (some "GET") method ≡ true → Reads method
reads method h = elim (Bool-cases (method == "GET")) [
  | inl g ↦ let e : method ≡ "GET" = ground (arith, eq_iff method "GET") in rw e get
  | inr f ↦ let e : method ≡ "HEAD" = ground (arith, eq_iff method "HEAD") in rw e head
]

pub posts : (method : String) → takes_method (some "POST") method ≡ true → method ≡ "POST"
posts method h = ground (arith, eq_iff method "POST")

-- What a path without wildcards matches.
pub literals :
    (texts : List String) (parts : List String) (values : Values)
    → Matches (map literal texts) parts values
    → (parts ≡ texts) × (values ≡ [])
literals [] _ _ ended = (refl, refl)
literals (text ∷ texts) _ _ (same _ m) =
    let (is, none_taken) = literals texts _ _ m in (ap (λ ps. text ∷ ps) is, none_taken)

module _ {H : Type 0} where
  -- Whether a request is taken to this handler, with these values.
  abbrev FoundAs : H → Values → Target H → Type 0
  FoundAs h values (found h' values') = (h' ≡ h) × (values' ≡ values)
  FoundAs h values method_not_allowed = ⊥
  FoundAs h values not_found = ⊥

  found_as : (h : H) (values : Values) {t : Target H} → t ≡ found h values → FoundAs h values t
  found_as h values e = rw e (refl, refl)

  matched-found :
      (takes : Bool) (h h' : H) (match : Option Values) (values : Values) (other : Target H)
      → matched takes h match other ≡ found h' values
      → ((takes ≡ true) × (match ≡ some values) × (h ≡ h')) ⊎ (other ≡ found h' values)
  matched-found takes h h' none values other e = inr e
  matched-found true h h' (some vs) values other e =
      let (same_handler, same_values) = found_as h' values e in
      inl (refl, ap some same_values, same_handler)
  matched-found false h h' (some vs) values (found _ _) e = inr e
  matched-found false h h' (some vs) values method_not_allowed e = absurd (found_as h' values e)
  matched-found false h h' (some vs) values not_found e = absurd (found_as h' values e)

  -- A request that is taken to a handler has a method and a path that the handler's pattern takes.
  pub target-Matches :
      (routes : List (Pattern × H)) (method : String) (parts : List String) (h : H)
      (values : Values)
      → target routes method parts ≡ found h values
      → (pattern : Pattern) × Elem (pattern, h) routes
        × (takes_method pattern.method method ≡ true)
        × Matches pattern.path parts values
  unfolding target
  target-Matches [] method parts h values e = absurd (found_as h values e)
  target-Matches ((pattern, k) ∷ routes) method parts h values e =
      elim (matched-found (takes_method pattern.method method) k h (match_path pattern.path parts)
        values (target routes method parts) e) [
          | inl (takes, matches, is) ↦
              (pattern, rw is here, takes, match_path-Matches pattern.path parts values matches)
          | inr later ↦
              let (p, elem, takes, matches) = target-Matches routes method parts h values later in
              (p, there elem, takes, matches)
        ]

  -- The pattern that a handler has in a mux.
  pub of_mux :
      (pattern_of : H → String) (pattern : Pattern) (h : H) (hs : List H)
      → Elem {A = Pattern × H} (pattern, h) (mux_of pattern_of hs)
      → pattern ≡ parse (pattern_of h)
  unfolding mux_of
  of_mux pattern_of pattern h [] elem = elim elem [ ]
  of_mux pattern_of pattern h (k ∷ hs) elem = elim (Elem-cons elem) [
    | inl is ↦ ap (λ x. x.0) is ∙ ap (λ x. parse (pattern_of x)) (sym (ap (λ x. x.1) is))
    | inr later ↦ of_mux pattern_of pattern h hs later
  ]
