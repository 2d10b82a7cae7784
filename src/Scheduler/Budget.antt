-- ===== src/Scheduler/Budget.antt =====
-- The attempts of dispatcher.go that a queue of jobs can still take, and the room that they need.
use distributed_ml_inference.Prelude.{
  ℕ, ◌+◌, ◌-◌, ◌^◌, ◌≤◌, ◌<◌, ℤ, pos, pos_part, wrap64_of_IsInt64, ◌+ℤ◌, ◌-ℤ◌, leb_ℤ, leb, IsInt64,
  ◌≡◌, false, Option, none, some, List, [], ◌∷◌, ◌++◌, All, length, if◌then◌else◌, arith,
}
use distributed_ml_inference.Models.{InferenceJob}
use distributed_ml_inference.Queue.{Message}
use distributed_ml_inference.Queue.Memory.{Memory, channel, memory_ops, channel_size, Handled}
use distributed_ml_inference.Scheduler.{Dispatcher, Host, Effects, counted, on_message}

-- How many deliveries a job can take: one at least, and one for each attempt that is left.
abbrev pub attempts_left : InferenceJob → ℕ
attempts_left job =
    let left = pos_part (job.max_attempts -ℤ job.attempt) in if leb left 1 then 1 else left

-- The counters of a job are ints, and `Attempt++` does not overflow.
abbrev pub IsCounted : InferenceJob → Type 0
IsCounted job = IsInt64 job.attempt × IsInt64 job.max_attempts × (pos_part job.attempt < 2 ^ 63 - 1)

pub counted_attempt :
    (job : InferenceJob) → IsCounted job → (counted job).attempt ≡ job.attempt +ℤ pos 1
counted_attempt job h = wrap64_of_IsInt64 _ (in_range job.attempt h.0 h.2)
  where
    in_range : (a : ℤ) → IsInt64 a → pos_part a < 2 ^ 63 - 1 → IsInt64 (a +ℤ pos 1)
    in_range a k l = unfold ◌+ℤ◌ in ground arith

-- A retry uses up one of the deliveries.
pub spend :
    (a max : ℤ)
    → leb_ℤ max (a +ℤ pos 1) ≡ false
    → (if leb (pos_part (max -ℤ (a +ℤ pos 1))) 1 then 1 else pos_part (max -ℤ (a +ℤ pos 1))) + 1
      ≤ (if leb (pos_part (max -ℤ a)) 1 then 1 else pos_part (max -ℤ a))
unfolding ◌+ℤ◌ ◌-ℤ◌
spend a max h = ground arith

pub attempts_left-counted :
    (job : InferenceJob)
    → IsCounted job
    → leb_ℤ job.max_attempts (counted job).attempt ≡ false
    → attempts_left (counted job) + 1 ≤ attempts_left job
attempts_left-counted job c h =
    rw (counted_attempt job c)
      (spend job.attempt job.max_attempts (rw (counted_attempt job c) at h))

pub counted-IsCounted :
    (job : InferenceJob)
    → IsCounted job
    → leb_ℤ job.max_attempts (counted job).attempt ≡ false
    → IsCounted (counted job)
counted-IsCounted job c h =
    rw (counted_attempt job c)
      (below_max job.attempt job.max_attempts c (rw (counted_attempt job c) at h))
  where
    below_max :
        (a max : ℤ)
        → IsInt64 a × IsInt64 max × (pos_part a < 2 ^ 63 - 1)
        → leb_ℤ max (a +ℤ pos 1) ≡ false
        → IsInt64 (a +ℤ pos 1) × IsInt64 max × (pos_part (a +ℤ pos 1) < 2 ^ 63 - 1)
    below_max a max k l = unfold ◌+ℤ◌ in ground arith

pub attempts_left-pos : (job : InferenceJob) → 1 ≤ attempts_left job
attempts_left-pos job = at_least_one (pos_part (job.max_attempts -ℤ job.attempt))
  where
    at_least_one : (n : ℕ) → 1 ≤ (if leb n 1 then 1 else n)
    at_least_one n = ground arith

module _ {P : Type 0} (d : Dispatcher) (host : Host P) where
  abbrev pub deliveries : Option InferenceJob → ℕ
  deliveries none = 1
  deliveries (some job) = attempts_left job

  -- How many deliveries the messages of a channel can take.
  abbrev pub total : List (Message P) → ℕ
  total [] = 0
  total (msg ∷ msgs) = deliveries (host.decode_job msg.payload) + total msgs

  abbrev pub FitsJob : Option InferenceJob → Type 0
  FitsJob none = Unit
  FitsJob (some job) = IsCounted job

  abbrev pub Fits : Message P → Type 0
  Fits msg = FitsJob (host.decode_job msg.payload)

  pub total-append : (xs ys : List (Message P)) → total (xs ++ ys) ≡ total xs + total ys
  total-append [] ys = omega arith
  total-append (x ∷ xs) ys = omega (arith, total-append xs ys)

  pub Fits-append : (xs ys : List (Message P)) → All Fits xs → All Fits ys → All Fits (xs ++ ys)
  Fits-append [] ys hx hy = hy
  Fits-append (x ∷ xs) ys hx hy = (hx.0, Fits-append xs ys hx.1 hy)

  -- Enough numbers and enough room for `n` deliveries, after `k` messages.
  pub record IsReady (n k : ℕ) (m : Memory P) : Type 0 where
    pub waits : total (channel d.jobs_topic m) ≤ n
    pub fits : All Fits (channel d.jobs_topic m)
    pub numbered : m.seq ≡ pos k
    pub numbers_left : k + n < 2 ^ 63 - 1
    pub jobs_room : length (channel d.jobs_topic m) ≤ channel_size
    pub results_room : length (channel d.results_topic m) + n ≤ channel_size

  abbrev pub on_memory : Message P → Memory P × Effects → Handled × (Memory P × Effects)
  on_memory = on_message d host memory_ops
