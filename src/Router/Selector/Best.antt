-- ===== src/Router/Selector/Best.antt =====
-- The loops of `Select` in selector.go, against an order of the workers by cost.
use distributed_ml_inference.Prelude.{
  ℤ, String, true, ◌≡◌, refl, sym, List, [], ◌∷◌, ◌++◌, inl, inr, arith, Bool-cases, Elem, here,
  there, All, All-elem, length, ◌≤ℤ◌, ◌<ℤ◌, ltb_ℤ,
}
use mathlib.Core.Path.{subst}
use mathlib.Core.List.{append-nil, append_assoc}
use distributed_ml_inference.Models.{Precision, Priority}
use distributed_ml_inference.Router.Registry.{Worker}
use distributed_ml_inference.Router.Selector.{
  max_float64, eligible, score, pick, choose, select, Selection, selected, no_eligible,
}
use distributed_ml_inference.Router.Selector.Eligible.{
  Serves, Elem-eligible, Elem-eligible_of_Serves,
}

-- `w` stands in the list, all before it cost more and none after it costs less.
pub record IsFirstBest (cost : Worker → ℤ) (w : Worker) (ws : List Worker) : Type 0 where
  pub front : List Worker
  pub back : List Worker
  pub split : ws ≡ front ++ w ∷ back
  pub before : All (λ v. cost w <ℤ cost v) front
  pub after : All (λ v. cost w ≤ℤ cost v) back

All-append : (P : Worker → Type 0) (xs ys : List Worker) → All P xs → All P ys → All P (xs ++ ys)
All-append P [] ys hx hy = hy
All-append P (x ∷ xs) ys hx hy = (hx.0, All-append P xs ys hx.1 hy)

module _ (cost : Worker → ℤ) where
  all_cheaper :
      (w v : Worker) (xs : List Worker)
      → cost w <ℤ cost v
      → All (λ u. cost v ≤ℤ cost u) xs
      → All (λ u. cost w <ℤ cost u) xs
  all_cheaper w v [] h k = tt
  all_cheaper w v (x ∷ xs) h k = (omega arith, all_cheaper w v xs h k.1)

  all_weaker :
      (w : Worker) (xs : List Worker)
      → All (λ u. cost w <ℤ cost u) xs
      → All (λ u. cost w ≤ℤ cost u) xs
  all_weaker w [] h = tt
  all_weaker w (x ∷ xs) h = (omega arith, all_weaker w xs h.1)

  -- A list in which `w` is the first best, one element longer.
  extend_same :
      (w x : Worker) (ws : List Worker)
      → IsFirstBest cost w ws
      → cost w ≤ℤ cost x
      → IsFirstBest cost w (ws ++ x ∷ [])
  extend_same w x ws b h = record {
    front = b.front;
    back = b.back ++ x ∷ [];
    split = rw b.split (append_assoc b.front (w ∷ b.back) (x ∷ []));
    before = b.before;
    after = All-append (λ v. cost w ≤ℤ cost v) b.back (x ∷ []) b.after (h, tt);
  }

  extend_better :
      (w x : Worker) (ws : List Worker)
      → IsFirstBest cost w ws
      → cost x <ℤ cost w
      → IsFirstBest cost x (ws ++ x ∷ [])
  extend_better w x ws b h = record {
    front = ws;
    back = [];
    split = refl;
    before = rw b.split (
        All-append (λ v. cost x <ℤ cost v) b.front (w ∷ b.back)
          (all_cheaper x w b.front h (all_weaker w b.front b.before))
          (h, all_cheaper x w b.back h b.after));
    after = tt;
  }

pub same_selected : {v w : Worker} → selected v ≡ selected w → v ≡ w
same_selected h = cc

below_max : (a b : ℤ) → a <ℤ b → ltb_ℤ a b ≡ true
below_max a b h = ground arith

module _ (round : ℤ → ℤ) (priority : Priority) where
  abbrev cost : Worker → ℤ
  cost = score round priority

  -- The loop's invariant: the worker kept is the first best of those seen.
  pick-IsFirstBest :
      (best : Worker) (seen ws : List Worker)
      → IsFirstBest cost best seen
      → IsFirstBest cost (pick round priority best (cost best) ws) (seen ++ ws)
  unfolding pick
  pick-IsFirstBest best seen [] b = rw append-nil b
  pick-IsFirstBest best seen (w ∷ ws) b = elim (Bool-cases (ltb_ℤ (cost w) (cost best))) [
    | inl t ↦ rw t (
        rw (append_assoc seen (w ∷ []) ws) at (
          pick-IsFirstBest w (seen ++ w ∷ []) ws (extend_better cost best w seen b (ground arith))))
    | inr f ↦ rw f (
        rw (append_assoc seen (w ∷ []) ws) at (
          pick-IsFirstBest best (seen ++ w ∷ []) ws
            (extend_same cost best w seen b (ground arith))))
  ]

  choose-IsFirstBest :
      (failure : Selection) (w : Worker) (ws : List Worker)
      → cost w <ℤ max_float64
      → (best : Worker) × (choose round priority failure (w ∷ ws) ≡ selected best)
        × IsFirstBest cost best (w ∷ ws)
  unfolding choose pick
  choose-IsFirstBest failure w ws h = (
    pick round priority w (cost w) ws,
    rw (below_max (cost w) max_float64 h),
    pick-IsFirstBest w (w ∷ []) ws
        (record { front = []; back = []; split = refl; before = tt; after = tt }),
  )

-- The first best is at most as costly as any element.
IsFirstBest-le :
    (cost : Worker → ℤ) (w : Worker) (ws : List Worker)
    → IsFirstBest cost w ws
    → (v : Worker) → Elem v ws
    → cost w ≤ℤ cost v
IsFirstBest-le cost w ws b v e =
    All-elem (λ u. cost w ≤ℤ cost u) (b.front ++ w ∷ b.back)
      (All-append (λ u. cost w ≤ℤ cost u) b.front (w ∷ b.back) (all_weaker cost w b.front b.before)
        (omega arith, b.after))
      (rw b.split at e)

IsFirstBest-Elem :
    (cost : Worker → ℤ) (w : Worker) (ws : List Worker) → IsFirstBest cost w ws → Elem w ws
IsFirstBest-Elem cost w ws b = rw b.split (middle b.front)
  where
    middle : (xs : List Worker) → Elem w (xs ++ w ∷ b.back)
    middle [] = here
    middle (x ∷ xs) = there (middle xs)

-- What `Select` promises: the first of the cheapest workers that serve, or a failure if none does.
pub data Chosen (cost : Worker → ℤ) (model_name : String) (preferred : Precision) (ws : List Worker)
    : Selection → Type 0 where
  best :
      (w : Worker)
      → Elem w ws
      → Serves model_name preferred w
      → ((v : Worker) → Elem v ws → Serves model_name preferred v → cost w ≤ℤ cost v)
      → IsFirstBest cost w (eligible model_name preferred ws)
      → Chosen cost model_name preferred ws (selected w)
  nobody :
      ((v : Worker) → Elem v ws → ¬ Serves model_name preferred v)
      → Chosen cost model_name preferred ws (no_eligible model_name preferred (length ws))

-- A worker that is chosen is one of the list.
pub Chosen-Elem :
    {cost : Worker → ℤ} {model_name : String} {preferred : Precision} {ws : List Worker}
    {s : Selection} {w : Worker}
    → Chosen cost model_name preferred ws s
    → s ≡ selected w
    → Elem w ws
Chosen-Elem {ws} (best v e _ _ _) same = subst (λ (u : Worker). Elem u ws) (same_selected same) e
Chosen-Elem (nobody none_serves) same = cc

module _ (round : ℤ → ℤ) (priority : Priority) (model_name : String) (preferred : Precision)
    (ws : List Worker) where
  choose-Chosen :
      (es : List Worker)
      → es ≡ eligible model_name preferred ws
      → ((w : Worker) → Elem w ws → score round priority w <ℤ max_float64)
      → Chosen
          (score round priority)
          model_name
          preferred
          ws
          (choose round priority (no_eligible model_name preferred (length ws)) es)
  unfolding choose
  choose-Chosen [] same small =
      nobody (λ v e s. absurd (not_in_nil v (rw (← same) at (Elem-eligible_of_Serves _ _ ws e s))))
    where
      not_in_nil : (v : Worker) → ¬ Elem v []
      not_in_nil v e = elim e [ ]
  choose-Chosen (v ∷ vs) same small = finish (choose-IsFirstBest round priority failure v vs cheap)
    where
      failure : Selection
      failure = no_eligible model_name preferred (length ws)

      listed : (u : Worker) → Elem u (v ∷ vs) → Elem u ws × Serves model_name preferred u
      listed u e = Elem-eligible model_name preferred ws (rw same at e)

      cheap : score round priority v <ℤ max_float64
      cheap = small v (listed v here).0

      finish :
          (w : Worker) × (choose round priority failure (v ∷ vs) ≡ selected w)
            × IsFirstBest (score round priority) w (v ∷ vs)
          → Chosen
              (score round priority)
              model_name
              preferred
              ws
              (choose round priority failure (v ∷ vs))
      finish (w, found, b) =
          let (e, s) = listed w (IsFirstBest-Elem _ w (v ∷ vs) b) in
          subst (Chosen (score round priority) model_name preferred ws) (sym found) (
            best w e s
              (λ u eu su.
                IsFirstBest-le (score round priority) w (v ∷ vs) b u
                  (rw (← same) at (Elem-eligible_of_Serves model_name preferred ws eu su)))
              (rw same at b))

  -- With every score below MaxFloat64, `Select` returns a worker that serves the request, at most
  -- as costly as any other that does and the first of the cheapest; it fails only if none serves.
  pub select-Chosen :
      ((w : Worker) → Elem w ws → score round priority w <ℤ max_float64)
      → Chosen
          (score round priority)
          model_name
          preferred
          ws
          (select round ws model_name preferred priority)
  unfolding select
  select-Chosen small = choose-Chosen (eligible model_name preferred ws) refl small
