-- ===== src/Gateway/Ratelimit.antt =====
-- services/gateway-go/internal/ratelimit/ratelimit.go. The token bucket of golang.org/x/time/rate is
-- a parameter: how one is made, and what `Allow` answers at a time and makes of the bucket.
use distributed_ml_inference.Prelude.{
  ℤ, String, Bool, true, false, Option, none, some, Option-cases, Bool-cases, List, [], ◌∷◌, lookup,
  insert, lookup-insert, ◌==◌, if◌then◌else◌, ◌≡◌, refl, inl, inr, eq_iff, arith,
}
use distributed_ml_inference.Models.{F64, Time}

pub record Rate (L : Type 0) : Type 0 where
  pub new_limiter : F64 → ℤ → L
  pub allow : Time → L → Bool × L

pub record Limiter (L : Type 0) : Type 0 where
  pub limiters : List (String × L)
  pub rps : F64
  pub burst : ℤ

-- The header X-API-Key, the host of net.SplitHostPort if it can split, and the remote address.
unfoldable pub client_key : String → Option String → String → String
client_key header host remote_addr =
    if header == "" then elim host [ none ↦ remote_addr | some h ↦ h ] else header

module _ {L : Type 0} (rate : Rate L) where
  -- New
  unfoldable pub new_limiters : F64 → ℤ → Limiter L
  new_limiters rps burst = record { limiters = []; rps = rps; burst = burst }

  unfoldable pub limiter_for : String → Limiter L → L × Limiter L
  limiter_for key l = elim (lookup key l.limiters) [
    | none ↦
        let lim = rate.new_limiter l.rps l.burst in
        (lim, record l { limiters = insert key lim l.limiters })
    | some lim ↦ (lim, l)
  ]

  -- limiterFor(key).Allow(), which changes the bucket that the map points to.
  unfoldable pub allow_for : Time → String → Limiter L → Bool × Limiter L
  unfolding limiter_for
  allow_for now key l =
      let found = limiter_for key l in
      let answer = rate.allow now found.0 in
      (answer.0, record found.1 { limiters = insert key answer.1 found.1.limiters })

  -- The handler that answers: the next one, or the one that says 429.
  unfoldable pub limit : {A : Type 0} → Time → String → A → A → Limiter L → A × Limiter L
  unfolding allow_for
  limit now key too_many next l =
      let answer = allow_for now key l in (if answer.0 then next else too_many, answer.1)

  -- What the requests of one client are answered, among those of all.
  abbrev pub answers : String → List (Time × String) → Limiter L → List Bool
  answers client [] l = []
  answers client ((now, key) ∷ requests) l =
      let answer = limit now key false true l in
      let rest = answers client requests answer.1 in if key == client then answer.0 ∷ rest else rest

  -- A token bucket that only one client's requests reach.
  abbrev pub alone : String → List (Time × String) → L → List Bool
  alone client [] bucket = []
  alone client ((now, key) ∷ requests) bucket =
      let after = alone client requests (rate.allow now bucket).1 in
      let skipped = alone client requests bucket in
      if key == client then (rate.allow now bucket).0 ∷ after else skipped

  abbrev pub bucket_or_new : Limiter L → Option L → L
  bucket_or_new l none = rate.new_limiter l.rps l.burst
  bucket_or_new l (some lim) = lim

  abbrev pub bucket : String → Limiter L → L
  bucket key l = bucket_or_new l (lookup key l.limiters)

  limit_answer :
      (now : Time) (key : String) (l : Limiter L)
      → (limit now key false true l).0 ≡ (rate.allow now (bucket key l)).0
  unfolding limit allow_for
  limit_answer now key l = elim (Option-cases (lookup key l.limiters)) [
    | inl absent ↦
        rw (absent, limiter_for) (if_same (rate.allow now (rate.new_limiter l.rps l.burst)).0)
    | inr (lim, found) ↦ rw (found, limiter_for) (if_same (rate.allow now lim).0)
  ]
    where
      if_same : (b : Bool) → (if b then true else false) ≡ b
      if_same true = refl
      if_same false = refl

  bucket-limit :
      (now : Time) (key client : String) (l : Limiter L)
      → bucket client (limit now key false true l).1
        ≡ (if key == client then (rate.allow now (bucket key l)).1 else bucket client l)
  unfolding limit allow_for
  bucket-limit now key client l = elim (Option-cases (lookup key l.limiters)) [
    | inl absent ↦
        let fresh = rate.new_limiter l.rps l.burst in
        rw (absent, limiter_for)
          (rw (lookup-insert key client (rate.allow now fresh).1 (insert key fresh l.limiters)) (
            rw (lookup-insert key client fresh l.limiters)
              (elim (Bool-cases (key == client)) [ inl t ↦ rw t refl | inr f ↦ rw f refl ])))
    | inr (lim, found) ↦
        rw (found, limiter_for)
          (rw (lookup-insert key client (rate.allow now lim).1 l.limiters)
            (elim (Bool-cases (key == client)) [ inl t ↦ rw t refl | inr f ↦ rw f refl ]))
  ]

  -- Whatever the other clients do, and in whatever order, a client's requests are answered as one
  -- token bucket answers them: its own where it has one, a new one otherwise.
  pub answers-alone :
      (client : String) (requests : List (Time × String)) (l : Limiter L)
      → answers client requests l ≡ alone client requests (bucket client l)
  answers-alone client [] l = refl
  answers-alone client ((now, key) ∷ requests) l =
      let rest = answers-alone client requests (limit now key false true l).1 in
      elim (Bool-cases (key == client)) [
        | inl t ↦
            let same : key ≡ client = ground (arith, eq_iff key client) in
            rw t (
              rw rest (
                rw (bucket-limit now key client l)
                  (rw t (rw (limit_answer now key l) (rw same refl)))))
        | inr f ↦ rw f (rw rest (rw (bucket-limit now key client l) (rw f refl)))
      ]
