-- ===== src/Router/Registry/Snapshot.antt =====
-- `Snapshot` of registry.go against an abstract view: the live workers, by id.
use distributed_ml_inference.Prelude.{
  String, Bool, true, ◌≡◌, refl, sym, ◌∙◌, ◌==◌, eq_iff, eq_refl, Option, none, some, List, [], ◌∷◌,
  inl, inr, arith, if◌then◌else◌, Bool-cases, All, Elem, here, there, Distinct, keys, values,
  lookup, keep, Elem-of_Elem-keep, Elem-cons_of_eq, ltb_ℤ, ◌-ℤ◌, ◌≢◌, find_first, Rearranged, done,
  cons, swap, both, Rearranged-symm, Elem-Rearranged, keep-Rearranged, sort-Rearranged,
  sort-IsSorted, sort-Rearranged_eq, IsSorted, text_leb_total, text_leb_trans, text_leb_antisymm,
}
use distributed_ml_inference.Models.{Time, Duration}
use distributed_ml_inference.Router.Registry.{
  Worker, Registry, is_live, by_id, snapshot, stamp, register,
}
use distributed_ml_inference.Router.Registry.Keyed.{
  IsNamed, IsKeyed, lookup-register, register-IsKeyed,
}

-- The view: the worker under an id, if it is live.
abbrev pub live : Time → Duration → Option Worker → Option Worker
live now stale_after none = none
live now stale_after (some w) = if is_live now stale_after w then some w else none

abbrev pub has_id : String → Worker → Bool
has_id id w = w.id == id

-- Of workers with one name there is one.
abbrev SameIdSame : List Worker → Type 0
SameIdSame ws = (a b : Worker) → Elem a ws → Elem b ws → a.id ≡ b.id → a ≡ b

Elem-keys_of_Elem-values :
    (m : List (String × Worker)) (w : Worker)
    → All IsNamed m
    → Elem w (values m)
    → Elem w.id (keys m)
Elem-keys_of_Elem-values [] w h e = elim e [ ]
Elem-keys_of_Elem-values ((k, v) ∷ m) w h here = rw h.0 here
Elem-keys_of_Elem-values ((k, v) ∷ m) w h (there e) = there (Elem-keys_of_Elem-values m w h.1 e)

values-SameIdSame :
    (m : List (String × Worker)) → All IsNamed m → Distinct (keys m) → SameIdSame (values m)
values-SameIdSame [] h d a b ea eb same = elim ea [ ]
values-SameIdSame ((k, v) ∷ m) h d a b here here same = refl
values-SameIdSame ((k, v) ∷ m) h d a b here (there eb) same =
    absurd (d.0 (rw (sym h.0 ∙ same) (Elem-keys_of_Elem-values m b h.1 eb)))
values-SameIdSame ((k, v) ∷ m) h d a b (there ea) here same =
    absurd (d.0 (rw (sym h.0 ∙ sym same) (Elem-keys_of_Elem-values m a h.1 ea)))
values-SameIdSame ((k, v) ∷ m) h d a b (there ea) (there eb) same =
    values-SameIdSame m h.1 d.1 a b ea eb same

keep-SameIdSame : (p : Worker → Bool) (ws : List Worker) → SameIdSame ws → SameIdSame (keep p ws)
keep-SameIdSame p ws h a b ea eb = h a b (Elem-of_Elem-keep p ws ea).0 (Elem-of_Elem-keep p ws eb).0

find_first-Rearranged :
    (id : String) {xs ys : List Worker}
    → Rearranged xs ys
    → SameIdSame xs
    → find_first (has_id id) xs ≡ find_first (has_id id) ys
unfolding find_first
find_first-Rearranged id done h = refl
find_first-Rearranged id (cons x r) h =
    ground (arith, find_first-Rearranged id r (λ a b ea eb. h a b (there ea) (there eb)))
find_first-Rearranged id (swap x y xs) h =
    ground (arith, eq_iff x.id id, eq_iff y.id id, h x y here (there here))
find_first-Rearranged id (both r s) h =
    find_first-Rearranged id r h
    ∙ find_first-Rearranged id s (λ a b ea eb.
      h a b (Elem-Rearranged (Rearranged-symm r) ea) (Elem-Rearranged (Rearranged-symm r) eb))

module _ (now : Time) (stale_after : Duration) where
  find_first_absent :
      (id : String) (m : List (String × Worker))
      → All IsNamed m
      → ¬ Elem id (keys m)
      → find_first (has_id id) (keep (is_live now stale_after) (values m)) ≡ none
  unfolding find_first keep
  find_first_absent id [] h absent = refl
  find_first_absent id ((k, v) ∷ m) h absent =
      ground
        (arith, eq_iff v.id id, h.0, other_key, find_first_absent id m h.1 (λ e. absent (there e)))
    where
      other_key : v.id ≢ id
      other_key same = absurd (absent (Elem-cons_of_eq (keys m) (sym same ∙ h.0)))

  find_first-live :
      (id : String) (m : List (String × Worker))
      → All IsNamed m
      → Distinct (keys m)
      → find_first (has_id id) (keep (is_live now stale_after) (values m))
        ≡ live now stale_after (lookup id m)
  unfolding find_first keep lookup
  find_first-live id [] h d = refl
  find_first-live id ((k, v) ∷ m) h d = elim (Bool-cases (k == id)) [
    | inl same ↦ ground (
      arith,
      eq_iff v.id id,
      eq_iff k id,
      h.0,
      find_first_absent id m h.1 (λ e. d.0 (rw ((eq_iff k id).0 same) e)),
    )
    | inr other ↦ ground (arith, eq_iff v.id id, eq_iff k id, h.0, find_first-live id m h.1 d.1)
  ]

-- A snapshot of a keyed registry shows under every id exactly the registered worker, if its heartbeat is not stale.
pub find_first-snapshot :
    (now : Time) (r : Registry) (id : String)
    → IsKeyed r
    → find_first (has_id id) (snapshot now r) ≡ live now r.stale_after (lookup id r.workers)
unfolding snapshot
find_first-snapshot now r id h =
    sym (
      find_first-Rearranged id
        (sort-Rearranged by_id (keep (is_live now r.stale_after) (values r.workers)))
        (keep-SameIdSame (is_live now r.stale_after) (values r.workers)
          (values-SameIdSame r.workers h.named h.distinct)))
    ∙ find_first-live now r.stale_after id r.workers h.named h.distinct

values-Rearranged :
    {m n : List (String × Worker)} → Rearranged m n → Rearranged (values m) (values n)
values-Rearranged done = done
values-Rearranged (cons (k, v) r) = cons v (values-Rearranged r)
values-Rearranged (swap (k, v) (j, w) m) = swap v w (values m)
values-Rearranged (both r s) = both (values-Rearranged r) (values-Rearranged s)

-- Whatever order Go's map iteration takes, a snapshot of a keyed registry is the same list.
pub snapshot-Rearranged :
    (now : Time) (r : Registry) (m : List (String × Worker))
    → IsKeyed r
    → Rearranged r.workers m
    → snapshot now (record r { workers = m }) ≡ snapshot now r
unfolding snapshot
snapshot-Rearranged now r m h perm = sym (
    sort-Rearranged_eq by_id (λ a b. text_leb_total a.id b.id)
      (λ a b c. text_leb_trans a.id b.id c.id)
      (keep-Rearranged (is_live now r.stale_after) (values-Rearranged perm))
      (λ a b ea eb ab ba.
        keep-SameIdSame (is_live now r.stale_after) (values r.workers)
          (values-SameIdSame r.workers h.named h.distinct) a b ea eb
          (text_leb_antisymm a.id b.id ab ba)))

-- A snapshot is in the order of the ids, and every worker of it is registered and live.
pub snapshot-IsSorted : (now : Time) (r : Registry) → IsSorted by_id (snapshot now r)
unfolding snapshot
snapshot-IsSorted now r =
    sort-IsSorted by_id (λ a b. text_leb_total a.id b.id) (λ a b c. text_leb_trans a.id b.id c.id)
      (keep (is_live now r.stale_after) (values r.workers))

pub Elem-snapshot :
    (now : Time) (r : Registry) {w : Worker}
    → Elem w (snapshot now r)
    → Elem w (values r.workers) × (is_live now r.stale_after w ≡ true)
unfolding snapshot
Elem-snapshot now r e =
    Elem-of_Elem-keep (is_live now r.stale_after) (values r.workers)
      (Elem-Rearranged (Rearranged-symm (sort-Rearranged by_id _)) e)

-- A worker that registers at `at` with a keyed registry is in a snapshot at `now` exactly while less
-- than `stale_after` has passed, with what it registered.
pub registered_until_stale :
    (at now : Time) (w : Worker) (r : Registry)
    → IsKeyed r
    → find_first (has_id w.id) (snapshot now (register at w r))
      ≡ (if ltb_ℤ (now -ℤ r.stale_after) at then some (stamp at w) else none)
unfolding register is_live
registered_until_stale at now w r h =
    rw (find_first-snapshot now (register at w r) w.id (register-IsKeyed at w r h))
      (rw (lookup-register at w r w.id) (rw (eq_refl w.id)))
