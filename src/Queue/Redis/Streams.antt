-- ===== src/Queue/Redis/Streams.antt =====
-- redis.go as a backend of the interface, given what XADD does to the streams.
use distributed_ml_inference.Prelude.{
  String, Bool, true, false, Option, none, some, ◌∙◌, List, [], ◌∷◌, ◌++◌, map, ◌==◌, ◌≡◌, refl, ap,
  if◌then◌else◌,
}
use mathlib.Core.List.{map-append}
use distributed_ml_inference.Queue.{done, Laws}
use distributed_ml_inference.Queue.Remote.{
  outcome, outcome_done, outcome_state, dlq, NotDlq, apart_from_dlq, dlq_apart_from, dlq_inj,
}
use distributed_ml_inference.Queue.Redis.{
  Client, Values, enqueue, dead_letter, redis_ops, payload_of,
}

-- What Redis says of XADD: an entry more at the end of its stream where go-redis returns no error,
-- and no other stream changed. A command that ends in an error may have been carried out.
pub record Appends {S P : Type 0} (client : Client S P) : Type 0 where
  pub entries : S → String → List (Values P)
  pub entries-xadd :
      (stream other : String) (v : Values P) (s : S)
      → (client.xadd stream v s).0 ≡ none
      → entries (client.xadd stream v s).1 other
        ≡ (if stream == other then entries s other ++ v ∷ [] else entries s other)
  pub entries-xadd_other :
      (stream other : String) (v : Values P) (s : S)
      → (stream == other) ≡ false
      → entries (client.xadd stream v s).1 other ≡ entries s other

module _ {S P : Type 0} (client : Client S P) (appends : Appends client) where
  open appends use {entries, entries-xadd, entries-xadd_other}

  abbrev pub payloads : List (Values P) → List P
  payloads = map (λ v. payload_of client v.payload)

  abbrev waiting : S → String → List P
  waiting s j = payloads (entries s j)

  -- An XADD leaves the other streams alone, whether it succeeds or not.
  other_stream :
      (stream j : String) (v : Values P) (s : S)
      → (stream == j) ≡ false
      → waiting (outcome (client.xadd stream v s)).1 j ≡ waiting s j
  other_stream stream j v s other =
      rw (outcome_state (client.xadd stream v s))
        (ap payloads (entries-xadd_other stream j v s other))

  appended :
      (b : Bool) (p : P) (reason : Option String) (xs : List (Values P))
      → payloads (if b then xs ++ record { payload = some p; reason = reason } ∷ [] else xs)
        ≡ (if b then payloads xs ++ p ∷ [] else payloads xs)
  appended true p reason xs = rw map-append
  appended false p reason xs = refl

  added :
      (stream j : String) (p : P) (reason : Option String) (s : S)
      → (outcome (client.xadd stream (record { payload = some p; reason = reason }) s)).0 ≡ done
      → waiting (outcome (client.xadd stream (record { payload = some p; reason = reason }) s)).1 j
        ≡ (if stream == j then waiting s j ++ p ∷ [] else waiting s j)
  added stream j p reason s h =
      let v : Values P = record { payload = some p; reason = reason } in
      let ended = outcome_done (client.xadd stream v s) h in
      rw (outcome_state (client.xadd stream v s))
        (rw (entries-xadd stream j v s ended) (appended (stream == j) p reason (entries s j)))

  unfoldable redis_laws : Laws NotDlq (redis_ops client)
  unfolding enqueue dead_letter
  redis_laws = record {
    pending = waiting;
    dead = λ s j. waiting s (dlq j);
    pending-enqueue = λ t j p s _ _ h. added t j p none s h;
    dead-enqueue = λ t j p s is _.
        other_stream t (dlq j) (record { payload = some p; reason = none }) s
          (apart_from_dlq t j is);
    pending-dead_letter = λ t j p reason s _ is.
        other_stream (dlq t) j (record { payload = some p; reason = some reason }) s
          (dlq_apart_from t j is);
    dead-dead_letter =
        λ t j p reason s _ _ h. added (dlq t) (dlq j) p (some reason) s h ∙ rw (dlq_inj t j);
  }

  -- Enqueue and DeadLetter of redis.go keep what the interface promises of them, for the topics that
  -- are not named like a stream of dead letters: what waits on a topic are the payloads of the
  -- entries of the stream with its name, and its dead letters are those of the stream with ".dlq"
  -- behind it. A call that returns no error puts its payload at the end of its own stream, and
  -- whatever it returns it leaves the streams of the other kind as they are.
  pub redis-Laws :
      (laws : Laws NotDlq (redis_ops client)) × ((s : S) (j : String)
        → (laws.pending s j ≡ payloads (entries s j))
          × (laws.dead s j ≡ payloads (entries s (dlq j))))
  unfolding redis_laws
  redis-Laws = (redis_laws, λ s j. (refl, refl))
