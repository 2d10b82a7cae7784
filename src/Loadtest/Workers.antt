-- ===== src/Loadtest/Workers.antt =====
-- benchmarks/loadtest/main.go: its workers, whose turns interleave. A turn is a step: what a worker
-- sends to the channel of results arrives in the order of the turns.
use distributed_ml_inference.Prelude.{
  ℕ, zero, suc, ◌+◌, ◌*◌, ◌^◌, ◌<◌, eqb, pos, String, Bool-cases, Option, Option-cases, none, some,
  List, [], ◌∷◌, ◌++◌, length, length-append, text_append, ◌==◌, ◌≡◌, refl, sym, ap, ◌∙◌, inl, inr,
  if◌then◌else◌, arith,
}
use distributed_ml_inference.Models.{F64, Duration}
use distributed_ml_inference.Fleet.Vehicle.{Rand, Floats, Http, HttpRequest}
use distributed_ml_inference.Loadtest.{Result, Flags, Report, features, hammer, report}
use distributed_ml_inference.Loadtest.Reports.{Summarises, report-Summarises}

-- How many of the turns are this worker's.
abbrev pub times : ℕ → List ℕ → ℕ
times i [] = 0
times i (j ∷ order) = if eqb j i then suc (times i order) else times i order

-- One worker's generator is another one.
abbrev pub advanced {ℓ} : {R : Type ℓ} → ℕ → R → (ℕ → R) → ℕ → R
advanced i rng rngs j = if eqb i j then rng else rngs j

one_more : {m n : ℕ} → m ≡ n → m + 1 ≡ suc n
one_more h = omega arith

module _ {R B N : Type 0} (rand : Rand R) (floats : Floats) (http : Http B N) where
  -- So many turns' draws from a generator.
  abbrev pub drawn : ℕ → R → R
  drawn zero rng = rng
  drawn (suc k) rng = (features rand floats http (drawn k rng)).1

module _ {R B N : Type 0} (rand : Rand R) (floats : Floats) (http : Http B N) (name : ℕ → String)
    (flags : Flags) (concurrency : ℕ) (opened : N) where
  -- The turns of the workers so far, the last one first, the results in the channel, and the
  -- generators of the workers with the network, which is `opened` at first. A worker is named by its number, with `name` for
  -- fmt.Sprintf, and its generator has that number as its seed.
  pub data Hammers : List ℕ → List Result → (ℕ → R) → N → Type 0 where
    started : Hammers [] [] (λ i. rand.new_rand (pos i)) opened
    turned :
        {order : List ℕ} {results : List Result} {rngs : ℕ → R} {net : N} (i : ℕ) (lat : Duration)
        (r : Result) (rng : R) (net' : N)
        → i < concurrency
        → hammer rand floats http flags (name i) lat (rngs i, net) ≡ some (r, (rng, net'))
        → Hammers order results rngs net
        → Hammers (i ∷ order) (results ++ r ∷ []) (advanced i rng rngs) net'

  none_drawn :
      {X : Type 0} {a : Result × (R × N)} → ◌≡◌ {A = Option (Result × (R × N))} none (some a) → X
  none_drawn h = absurd (cc)

  some_drawn :
      {a b : Result × (R × N)} → ◌≡◌ {A = Option (Result × (R × N))} (some a) (some b) → a ≡ b
  some_drawn h = cc

  hammer-drawn :
      (vehicle : String) (lat : Duration) (rng : R) (net : N) (r : Result) (rng' : R) (net' : N)
      → hammer rand floats http flags vehicle lat (rng, net) ≡ some (r, (rng', net'))
      → rng' ≡ (features rand floats http rng).1
  unfolding hammer
  hammer-drawn vehicle lat rng net r rng' net' h =
      elim (Option-cases (http.request_error "POST" (text_append flags.url "/v1/infer"))) [
        | inl made ↦ sym (ap (λ x. x.1.0) (some_drawn (rw (made, hammer) at h)))
        | inr (_, e) ↦ none_drawn (rw (e, hammer) at h)
      ]

  pub Hammers-drawn :
      {order : List ℕ} {results : List Result} {rngs : ℕ → R} {net : N}
      → Hammers order results rngs net
      → (length results ≡ length order)
        × ((j : ℕ) → rngs j ≡ drawn rand floats http (times j order) (rand.new_rand (pos j)))
  Hammers-drawn started = (refl, λ j. refl)
  Hammers-drawn
        (turned {order = order} {results = results} {rngs = rngs} {net = net} i lat r rng net' below
          made earlier) =
      let (count, draws) = Hammers-drawn earlier in
      (
        length-append results (r ∷ []) ∙ one_more count,
        λ j. elim (Bool-cases (eqb i j)) [
          | inl t ↦
              let e : i ≡ j = ground arith in
              rw t (
                hammer-drawn (name i) lat (rngs i) net r rng net' made
                ∙ ap (λ g. (features rand floats http g).1) (ap rngs e ∙ draws j))
          | inr f ↦ rw f (draws j)
        ],
      )

-- A client that keeps the requests that it sends, the first one first, beside the network.
abbrev pub logging : {B N : Type 0} → Http B N → Http B (List (HttpRequest B) × N)
logging http = record {
  request_error = http.request_error;
  marshal = http.marshal;
  send = λ request (log, net).
      let sent = http.send request net in (sent.0, (log ++ request ∷ [], sent.1));
  refusal = http.refusal;
}

module _ {R B N : Type 0} (rand : Rand R) (floats : Floats) (http : Http B N) (name : ℕ → String)
    (flags : Flags) where
  -- What a worker asks with the draws of its generator.
  abbrev pub request_of : String → R → HttpRequest B
  request_of vehicle rng = record {
    method = "POST";
    url = text_append flags.url "/v1/infer";
    headers =
        ("Content-Type", "application/json")
        ∷ (if flags.api_key == "" then [] else ("X-API-Key", flags.api_key) ∷ []);
    body = http.marshal (record {
      vehicle_id = vehicle;
      model_name = flags.model_name;
      precision = "fp32";
      priority = "normal";
      features = (features rand floats http rng).0;
    });
  }

  -- The requests of the turns in their order: the m-th turn of worker i asks with what the generator
  -- that i seeds draws m-th.
  abbrev pub asked : List ℕ → List (HttpRequest B)
  asked [] = []
  asked (i ∷ order) =
      asked order
      ++ request_of (name i) (drawn rand floats http (times i order) (rand.new_rand (pos i))) ∷ []

  some_sent :
      {T : Type 0} {a b : Result × (R × (List (HttpRequest B) × T))}
      → ◌≡◌ {A = Option (Result × (R × (List (HttpRequest B) × T)))} (some a) (some b)
      → a ≡ b
  some_sent h = cc

  hammer-asks :
      (vehicle : String) (lat : Duration) (rng rng' : R) (log log' : List (HttpRequest B))
      (net net' : N) (r : Result)
      → hammer rand floats (logging http) flags vehicle lat (rng, (log, net))
        ≡ some (r, (rng', (log', net')))
      → log' ≡ log ++ request_of vehicle rng ∷ []
  unfolding hammer
  hammer-asks vehicle lat rng rng' log log' net net' r h =
      elim (Option-cases (http.request_error "POST" (text_append flags.url "/v1/infer"))) [
        | inl made ↦ sym (ap (λ x. x.1.1.0) (some_sent (rw (made, hammer) at h)))
        | inr (_, e) ↦ let clash = rw (e, hammer) at h in absurd (cc)
      ]

  drawn-logging :
      (k : ℕ) (rng : R) → drawn rand floats (logging http) k rng ≡ drawn rand floats http k rng
  drawn-logging zero rng = refl
  drawn-logging (suc k) rng = ap (λ g. (features rand floats http g).1) (drawn-logging k rng)

  module _ (concurrency : ℕ) (opened : N) where
    Hammers-asked :
        {order : List ℕ} {results : List Result} {rngs : ℕ → R} {net : List (HttpRequest B) × N}
        → Hammers rand floats
            (logging http)
            name
            flags
            concurrency
            ([], opened)
            order
            results
            rngs
            net
        → net.0 ≡ asked order
    Hammers-asked started = refl
    Hammers-asked
          (turned {order = order} {rngs = rngs} {net = net} i lat r rng net' below made earlier) =
        let (_, draws) =
          Hammers-drawn rand floats (logging http) name flags concurrency ([], opened) earlier in
        hammer-asks (name i) lat (rngs i) rng net.0 net'.0 net.1 net'.1 r made
        ∙ ap (λ l. l ++ request_of (name i) (rngs i) ∷ []) (Hammers-asked earlier)
        ∙ ap (λ g. asked order ++ request_of (name i) g ∷ [])
            (draws i ∙ drawn-logging (times i order) (rand.new_rand (pos i)))

    -- However the workers' turns interleave, with at least one turn and not so many that 99 times
    -- their number is no int64, the report of their results is made without a panic and has them
    -- all, and the requests that were sent are one for each turn, in the order of the turns: a POST
    -- to the flags' address with their key and model, in the worker's name, and with the features
    -- that the generator seeded with the worker's number draws for that turn, whatever the others
    -- do.
    pub hammered-Summarises :
        (seconds : Duration → F64) {order : List ℕ} {results : List Result} {rngs : ℕ → R}
        {net : List (HttpRequest B) × N}
        → Hammers rand floats
            (logging http)
            name
            flags
            concurrency
            ([], opened)
            order
            results
            rngs
            net
        → 0 < length order
        → 99 * length order < 2 ^ 63
        → (r : Report) × (report floats seconds flags results ≡ some r)
          × Summarises results r
          × (length results ≡ length order)
          × (net.0 ≡ asked order)
    hammered-Summarises seconds {results = results} run some_done bound =
        let (count, _) =
          Hammers-drawn rand floats (logging http) name flags concurrency ([], opened) run in
        let (r, made, sums) =
          report-Summarises floats seconds flags results (omega (arith, count))
            (omega (arith, count)) in
        (r, made, sums, count, Hammers-asked run)
