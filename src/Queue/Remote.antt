-- ===== src/Queue/Remote.antt =====
-- What redis.go and kafka.go share: errors as outcomes, and the names of the dead letters' topics.
use distributed_ml_inference.Prelude.{
  String, text_append, false, Option, none, some, Bool-cases, ◌==◌, eq_iff, eq_refl, ◌≡◌, ◌≢◌, refl,
  sym, inl, inr, arith,
}
use text.Mathlib.TextLemmas.{append_cancel_right}
use distributed_ml_inference.Queue.{Outcome, done, failed}

-- An error as the interface's callers see it.
abbrev pub outcome : {S : Type 0} → Option String × S → Outcome × S
outcome (none, s) = (done, s)
outcome (some e, s) = (failed e, s)

-- topic + ".dlq"
abbrev pub dlq : String → String
dlq topic = text_append topic ".dlq"

-- A topic that is not named like the stream of another topic's dead letters.
abbrev pub NotDlq : String → Type 0
NotDlq t = (j : String) → t ≢ dlq j

pub outcome_done : {S : Type 0} (r : Option String × S) → (outcome r).0 ≡ done → r.0 ≡ none
outcome_done (none, s) h = refl
outcome_done (some e, s) h = cc

pub outcome_state : {S : Type 0} (r : Option String × S) → (outcome r).1 ≡ r.1
outcome_state (none, s) = refl
outcome_state (some e, s) = refl

pub apart_from_dlq : (t j : String) → NotDlq t → (t == dlq j) ≡ false
apart_from_dlq t j h = elim (Bool-cases (t == dlq j)) [
  | inl same ↦ absurd (h j ((eq_iff t (dlq j)).0 same))
  | inr other ↦ other
]

pub dlq_apart_from : (t j : String) → NotDlq j → (dlq t == j) ≡ false
dlq_apart_from t j h = elim (Bool-cases (dlq t == j)) [
  | inl same ↦ absurd (h t (sym ((eq_iff (dlq t) j).0 same)))
  | inr other ↦ other
]

pub dlq_inj : (t j : String) → (dlq t == dlq j) ≡ (t == j)
dlq_inj t j = elim (Bool-cases (t == j)) [
  | inl same ↦ rw (same, (eq_iff t j).0 same) (eq_refl (dlq j))
  | inr other ↦ elim (Bool-cases (dlq t == dlq j)) [
    | inl same ↦
        let e = append_cancel_right t j ".dlq" ((eq_iff (dlq t) (dlq j)).0 same) in
        ground (arith, eq_iff t j)
    | inr apart ↦ rw (other, apart)
  ]
]
