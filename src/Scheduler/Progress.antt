-- ===== src/Scheduler/Progress.antt =====
-- The turns of dispatcher.go on the in-process queue.
use distributed_ml_inference.Prelude.{
  ℕ, zero, suc, ◌+◌, ◌≤◌, ◌≡◌, refl, ap, ◌∙◌, String, Bool, true, false, Option, none, some, List,
  [], ◌∷◌, ◌==◌, arith,
}
use distributed_ml_inference.Models.{InferenceJob, InferenceResult}
use distributed_ml_inference.Queue.{Message}
use distributed_ml_inference.Queue.Memory.{Memory, channel, memory_ops, turns}
use distributed_ml_inference.Scheduler.{
  Dispatcher, Host, Effects, on_message, counted, request, result, result_payload,
}
use distributed_ml_inference.Proto.{InferenceResponse, ok}
use distributed_ml_inference.Scheduler.Budget.{attempts_left-pos, deliveries, total, IsReady}
use distributed_ml_inference.Scheduler.Balance.{Weighs, result_weight, balance, outcomes, jobs_in}
use distributed_ml_inference.Scheduler.Turns.{turn}

module _ {P : Type 0} (d : Dispatcher) (host : Host P)
    (apart : (d.jobs_topic == d.results_topic) ≡ false)
    (apart' : (d.results_topic == d.jobs_topic) ≡ false)
    (reads : (job : InferenceJob) (p : P)
      → host.encode_job job ≡ some p
      → host.decode_job p ≡ some job)
    (writes : (job : InferenceJob) (p : P)
      → host.decode_job p ≡ some job
      → (p' : P) × (host.encode_job (counted job) ≡ some p')) where
  nothing_left : (ch : List (Message P)) → total d host ch ≤ 0 → ch ≡ []
  nothing_left [] l = refl
  nothing_left (msg ∷ rest) l = absurd (no_delivery (host.decode_job msg.payload) (omega arith))
    where
      no_delivery : (o : Option InferenceJob) → ¬ (deliveries d host o ≤ 0)
      no_delivery none = λ l. omega arith
      no_delivery (some job) = λ l. omega (arith, attempts_left-pos job)

  turns-balance :
      (chosen : String → Bool) (weigh : P → ℕ)
      → Weighs d host chosen weigh
      → (n k : ℕ) (m : Memory P) (e : Effects) → IsReady d host n k m
      → (s : Memory P × Effects) × (turns (on_message d host memory_ops) n d.jobs_topic (m, e)
          ≡ some s)
        × (channel d.jobs_topic s.0 ≡ [])
        × (balance d host chosen weigh s.0 ≡ balance d host chosen weigh m)
  unfolding turns
  turns-balance chosen weigh weighs zero k m e h =
      ((m, e), refl, nothing_left (channel d.jobs_topic m) h.waits, refl)
  turns-balance chosen weigh weighs (suc n) k m e h =
      let t =
        turn d host apart apart' reads writes chosen weigh weighs n k m e (channel d.jobs_topic m)
          refl h in
      let (s, returns, empty, kept) =
        turns-balance chosen weigh weighs n t.count t.after.0 t.after.1 t.ready in
      (s, rw (t.returns, turns) returns, empty, kept ∙ t.kept)

  -- Whatever the router answers to each call, every job comes to its end: where the two topics
  -- differ, a job that json.Marshal writes is read back, a job that was read can be written again
  -- with its attempt counted, and there are enough numbers for ids and room on the results topic
  -- for `n` deliveries, which are at least as many as the attempts that the waiting jobs have left,
  -- `n` turns of the loop return, leave the jobs topic empty, and leave one message more on the
  -- results topic or one dead letter more for each job that waited. The message is empty where the
  -- result cannot be written as JSON.
  pub turns-empties :
      (n k : ℕ) (m : Memory P) (e : Effects)
      → IsReady d host n k m
      → (s : Memory P × Effects) × (turns (on_message d host memory_ops) n d.jobs_topic (m, e)
          ≡ some s)
        × (channel d.jobs_topic s.0 ≡ [])
        × (outcomes d host (λ _. true) (λ _. 1) s.0
            ≡ outcomes d host (λ _. true) (λ _. 1) m
              + jobs_in d host (λ _. true) (λ _. 1) (channel d.jobs_topic m))
  turns-empties n k m e h =
      let (s, returns, empty, kept) =
        turns-balance (λ _. true) (λ _. 1) (λ n job resp _. refl) n k m e h in
      (s, returns, empty, omega (arith, ap (jobs_in d host (λ _. true) (λ _. 1)) empty))

  result_weighs :
      (decode_result : P → Option InferenceResult)
      → ((r : InferenceResult) (p : P) → host.encode_result r ≡ some p → decode_result p ≡ some r)
      → ((i : ℕ) (job : InferenceJob) (resp : InferenceResponse)
          → host.router i (request host job) ≡ ok resp
          → (p : P) × (host.encode_result (result host job resp) ≡ some p))
      → (id : String) → Weighs d host (λ i. i == id) (λ p. result_weight id (decode_result p))
  unfolding result result_payload
  result_weighs decode_result read_back writable id i job resp replied =
      let (p, made) = writable i job resp replied in
      rw made (ap (result_weight id) (read_back _ p made))

  -- No job is lost, and none is answered twice, where JSON can write the result of every answer of
  -- the router: where also the two topics differ, what json.Marshal writes is read back, a job that
  -- was read can be written again with its attempt counted, and there are numbers and room enough
  -- for `n` deliveries, then after `n` turns no job waits, and for every id there are as many
  -- results and dead letters more as there were jobs waiting with that id.
  pub turns-settle :
      (decode_result : P → Option InferenceResult)
      → ((r : InferenceResult) (p : P) → host.encode_result r ≡ some p → decode_result p ≡ some r)
      → ((i : ℕ) (job : InferenceJob) (resp : InferenceResponse)
          → host.router i (request host job) ≡ ok resp
          → (p : P) × (host.encode_result (result host job resp) ≡ some p))
      → (id : String) (n k : ℕ) (m : Memory P) (e : Effects) → IsReady d host n k m
      → (s : Memory P × Effects) × (turns (on_message d host memory_ops) n d.jobs_topic (m, e)
          ≡ some s)
        × (channel d.jobs_topic s.0 ≡ [])
        × (outcomes d host (λ i. i == id) (λ p. result_weight id (decode_result p)) s.0
            ≡ outcomes d host (λ i. i == id) (λ p. result_weight id (decode_result p)) m
              + jobs_in d host
                  (λ i. i == id)
                  (λ p. result_weight id (decode_result p))
                  (channel d.jobs_topic m))
  turns-settle decode_result read_back writable id n k m e h =
      let chosen = λ (i : String). i == id in
      let weigh = λ (p : P). result_weight id (decode_result p) in
      let (s, returns, empty, kept) =
        turns-balance chosen weigh (result_weighs decode_result read_back writable id) n k m e h in
      (s, returns, empty, omega (arith, ap (jobs_in d host chosen weigh) empty))
