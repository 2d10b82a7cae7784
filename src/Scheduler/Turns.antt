-- ===== src/Scheduler/Turns.antt =====
-- One turn of dispatcher.go on the in-process queue.
use distributed_ml_inference.Prelude.{
  ℕ, suc, ◌+◌, ◌^◌, ◌≤◌, ◌<◌, pos, add64, wrap64, ◌+ℤ◌, leb_ℤ, ◌≡◌, refl, ap, ◌∙◌, String, Bool,
  false, Option, none, some, Bool-cases, Option-cases, List, [], ◌∷◌, ◌++◌, length, length-append,
  ◌==◌, eq_refl, inl, inr, if◌then◌else◌, arith,
}
use distributed_ml_inference.Models.{InferenceJob}
use distributed_ml_inference.Proto.{InferenceResponse, Rpc, ok, status}
use distributed_ml_inference.Queue.{Message, done}
use distributed_ml_inference.Queue.Itoa.{itoa-IsDecimal}
use distributed_ml_inference.Queue.Memory.{
  Memory, channel, dead_lettered, set_channel, enqueue, dead_letter, memory_ops, channel_size,
  Handled, ack, consume_one,
}
use distributed_ml_inference.Queue.Memory.Channels.{
  channel-set_channel, channel-enqueue, enqueue_done, seq-enqueue, message_of, dead_of_dlq,
  dlq-enqueue, dead-dead_letter_memory,
}
use distributed_ml_inference.Scheduler.{
  Dispatcher, Host, Effects, request, result, counted, give_up, retry, on_failure, on_success,
  after_call, bump, handle, on_message, job_payload, result_payload,
}
use distributed_ml_inference.Scheduler.Balance.{
  Weighs, job_weight, jobs_in, results_in, dead_in, balance, jobs_in-append, results_in-append,
  dead_in-append,
}
use distributed_ml_inference.Scheduler.Budget.{
  IsCounted, attempts_left-counted, counted-IsCounted, attempts_left-pos, deliveries, total-append,
  Fits-append, IsReady,
}

module _ {P : Type 0} where
  -- What an `Enqueue` with room does to the queue.
  record Added (t : String) (p : P) (k : ℕ) (m m' : Memory P) : Type 0 where
    id : String
    next : m'.seq ≡ pos (suc k)
    holds :
        (j : String)
        → channel j m' ≡ (if t == j then channel t m ++ message_of id p ∷ [] else channel j m)

  next_number :
      (m : Memory P) (k : ℕ) → m.seq ≡ pos k → suc k < 2 ^ 63 → add64 m.seq (pos 1) ≡ pos (suc k)
  next_number m k h l = rw h (bump_number k l)
    where
      bump_number : (n : ℕ) → suc n < 2 ^ 63 → wrap64 (pos n +ℤ pos 1) ≡ pos (suc n)
      bump_number n b = unfold ◌+ℤ◌ wrap64 in ground arith

  enqueue_room :
      (t : String) (p : P) (m : Memory P) (k : ℕ)
      → m.seq ≡ pos k
      → suc k < 2 ^ 63
      → length (channel t m) < channel_size
      → ((enqueue none false t p m).0 ≡ done) × Added t p k m (enqueue none false t p m).1
  enqueue_room t p m k h l room =
      let number = next_number m k h l in
      let (id, numbers, _) = itoa-IsDecimal (pos (suc k)) (l, omega arith) (omega arith) in
      let ended = enqueue_done false t p m id (rw number numbers) room in (ended, added ended)
    where
      added : (enqueue none false t p m).0 ≡ done → Added t p k m (enqueue none false t p m).1
      added ended = record {
        id = (channel-enqueue none false t p m ended).0;
        next = seq-enqueue none false t p m ∙ next_number m k h l;
        holds = (channel-enqueue none false t p m ended).3;
      }

module _ {P : Type 0} (d : Dispatcher) (host : Host P)
    (apart : (d.jobs_topic == d.results_topic) ≡ false)
    (apart' : (d.results_topic == d.jobs_topic) ≡ false)
    (reads : (job : InferenceJob) (p : P)
      → host.encode_job job ≡ some p
      → host.decode_job p ≡ some job)
    (writes : (job : InferenceJob) (p : P)
      → host.decode_job p ≡ some job
      → (p' : P) × (host.encode_job (counted job) ≡ some p'))
    (chosen : String → Bool) (weigh : P → ℕ) (weighs : Weighs d host chosen weigh) where
  abbrev waiting : List (Message P) → ℕ
  waiting = jobs_in d host chosen weigh

  abbrev finished : List (Message P) → ℕ
  finished = results_in d host chosen weigh

  abbrev buried : List P → ℕ
  buried = dead_in d host chosen weigh

  abbrev sum_of : Memory P → ℕ
  sum_of = balance d host chosen weigh

  -- What a turn leaves: the dispatcher did not hang, one delivery less is to be made, and every job
  -- waits or is done as before.
  pub record Turned (n : ℕ) (m : Memory P) (out : Option (Memory P × Effects)) : Type 0 where
    pub after : Memory P × Effects
    pub returns : out ≡ some after
    pub count : ℕ
    pub ready : IsReady d host n count after.0
    pub kept : sum_of after.0 ≡ sum_of m

  module _ (n k : ℕ) (msg : Message P) (rest : List (Message P)) (m : Memory P)
      (h : IsReady d host (suc n) k m) (front : channel d.jobs_topic m ≡ msg ∷ rest) where
    abbrev popped : Memory P
    popped = set_channel d.jobs_topic rest m

    jobs-popped : channel d.jobs_topic popped ≡ rest
    jobs-popped = channel-set_channel d.jobs_topic d.jobs_topic rest m ∙ rw (eq_refl d.jobs_topic)

    results-popped : channel d.results_topic popped ≡ channel d.results_topic m
    results-popped = channel-set_channel d.jobs_topic d.results_topic rest m ∙ rw apart

    seq-popped : popped.seq ≡ m.seq
    unfolding set_channel
    seq-popped = refl

    dead-popped : (j : String) → dead_lettered j popped ≡ dead_lettered j m
    unfolding dead_lettered set_channel
    dead-popped j = refl

    dead-enqueued :
        (t : String) (p : P)
        → dead_lettered d.jobs_topic (enqueue none false t p popped).1
          ≡ dead_lettered d.jobs_topic popped
    dead-enqueued t p =
        dead_of_dlq popped (enqueue none false t p popped).1 d.jobs_topic
          (dlq-enqueue none false t p popped)

    IsReady-popped :
        1 ≤ deliveries d host (host.decode_job msg.payload)
        → (m' : Memory P) → channel d.jobs_topic m' ≡ rest
        → (k' : ℕ) → m'.seq ≡ pos k'
        → k' ≤ suc k
        → length (channel d.results_topic m') ≤ length (channel d.results_topic m) + 1
        → IsReady d host n k' m'
    IsReady-popped one m' same k' number few room =
        let waits = rw front at h.waits in
        let fits = rw front at h.fits in
        let long = rw front at h.jobs_room in
        record {
          waits = rw same (omega arith);
          fits = rw same fits.1;
          numbered = number;
          numbers_left = omega (arith, h.numbers_left);
          jobs_room = rw same (omega arith);
          results_room = omega (arith, h.results_room);
        }

    turn_of_ack :
        (e : Effects) (k' : ℕ) (out : Handled × (Memory P × Effects))
        → on_message d host memory_ops msg (popped, e) ≡ out
        → out.0 ≡ ack
        → IsReady d host n k' out.1.0
        → sum_of out.1.0 ≡ sum_of m
        → Turned n m (consume_one (on_message d host memory_ops) d.jobs_topic (m, e))
    turn_of_ack e k' (handled, s') same acked r kept = record {
      after = s';
      returns = unfold consume_one in rw front (rw same (rw acked));
      count = k';
      ready = r;
      kept = kept;
    }

    drop_turn :
        (e : Effects)
        → host.decode_job msg.payload ≡ none
        → Turned n m (consume_one (on_message d host memory_ops) d.jobs_topic (m, e))
    drop_turn e malformed =
        turn_of_ack e k (ack, (popped, e)) (unfold on_message in rw malformed) refl
          (IsReady-popped (rw malformed (omega arith)) popped jobs-popped k
            (seq-popped ∙ h.numbered) (omega arith) (omega (arith, ap length results-popped)))
          (omega (
            arith,
            ap waiting jobs-popped,
            ap waiting front,
            ap (job_weight d host chosen weigh) malformed,
            ap finished results-popped,
            ap buried (dead-popped d.jobs_topic),
          ))

    module _ (job : InferenceJob) (e : Effects)
        (well_formed : host.decode_job msg.payload ≡ some job) where
      one_left : 1 ≤ deliveries d host (host.decode_job msg.payload)
      one_left = rw well_formed (attempts_left-pos job)

      numbers_fit : suc k < 2 ^ 63
      numbers_fit = omega (arith, h.numbers_left)

      results_fit : length (channel d.results_topic popped) < channel_size
      results_fit = rw results-popped (omega (arith, h.results_room))

      jobs_fit : length (channel d.jobs_topic popped) < channel_size
      jobs_fit = rw jobs-popped (omega (arith, rw front at h.jobs_room))

      abbrev called : Effects
      called = record e { calls = e.calls ++ request host (counted job) ∷ [] }

      publish_turn :
          (resp : InferenceResponse)
          → host.router (length e.calls) (request host (counted job)) ≡ ok resp
          → on_message d host memory_ops msg (popped, e)
            ≡ on_success d host memory_ops (counted job) resp (popped, called)
          → Turned n m (consume_one (on_message d host memory_ops) d.jobs_topic (m, e))
      unfolding on_success
      publish_turn resp replied same =
          let payload = result_payload host (result host (counted job) resp) in
          let (accepted, add) =
            enqueue_room d.results_topic payload popped k (seq-popped ∙ h.numbered) numbers_fit
              results_fit in
          let m' = (enqueue none false d.results_topic payload popped).1 in
          let grown : channel d.results_topic m'
              ≡ channel d.results_topic popped ++ message_of add.id payload ∷ [] =
            add.holds d.results_topic ∙ rw (eq_refl d.results_topic) in
          let others : channel d.jobs_topic m' ≡ rest =
            add.holds d.jobs_topic ∙ rw apart' jobs-popped in
          turn_of_ack e (suc k) (on_success d host memory_ops (counted job) resp (popped, called))
            same (rw accepted)
            (IsReady-popped one_left m' others (suc k) add.next (omega arith) (
              omega (
                arith,
                ap length grown,
                length-append (channel d.results_topic popped) (message_of add.id payload ∷ []),
                ap length results-popped,
              )))
            (omega (
              arith,
              ap waiting others,
              ap waiting front,
              ap (job_weight d host chosen weigh) well_formed,
              ap finished grown,
              results_in-append d host chosen weigh (channel d.results_topic popped)
                  (message_of add.id payload ∷ []),
              ap finished results-popped,
              weighs (length e.calls) (counted job) resp replied,
              ap buried (dead-enqueued d.results_topic payload ∙ dead-popped d.jobs_topic),
            ))

      bury_turn :
          (reason : String) (e' : Effects)
          → on_message d host memory_ops msg (popped, e)
            ≡ give_up d host memory_ops msg.payload reason (popped, e')
          → Turned n m (consume_one (on_message d host memory_ops) d.jobs_topic (m, e))
      unfolding give_up dead_letter
      bury_turn reason e' same =
          turn_of_ack e k (give_up d host memory_ops msg.payload reason (popped, e')) same refl
            (IsReady-popped one_left (dead_letter d.jobs_topic msg.payload reason popped).1
              (pending_kept d.jobs_topic ∙ jobs-popped) k (seq-popped ∙ h.numbered) (omega arith)
              (omega (arith, ap length (pending_kept d.results_topic ∙ results-popped))))
            (omega (
              arith,
              ap waiting (pending_kept d.jobs_topic ∙ jobs-popped),
              ap waiting front,
              ap (job_weight d host chosen weigh) well_formed,
              ap finished (pending_kept d.results_topic ∙ results-popped),
              ap buried grave,
              dead_in-append d host chosen weigh (dead_lettered d.jobs_topic popped)
                  (msg.payload ∷ []),
              ap buried (dead-popped d.jobs_topic),
            ))
        where
          grave :
              dead_lettered d.jobs_topic (dead_letter d.jobs_topic msg.payload reason popped).1
              ≡ dead_lettered d.jobs_topic popped ++ msg.payload ∷ []
          grave =
              dead-dead_letter_memory d.jobs_topic d.jobs_topic msg.payload reason popped
              ∙ rw (eq_refl d.jobs_topic)

          pending_kept :
              (j : String)
              → channel j (dead_letter d.jobs_topic msg.payload reason popped).1 ≡ channel j popped
          pending_kept j = unfold channel in refl

      retry_turn :
          (e' : Effects)
          → IsCounted job
          → leb_ℤ job.max_attempts (counted job).attempt ≡ false
          → on_message d host memory_ops msg (popped, e)
            ≡ retry d host memory_ops (counted job) (popped, e')
          → Turned n m (consume_one (on_message d host memory_ops) d.jobs_topic (m, e))
      unfolding retry
      retry_turn e' c more same =
          let payload = job_payload host (counted job) in
          let (accepted, add) =
            enqueue_room d.jobs_topic payload popped k (seq-popped ∙ h.numbered) numbers_fit
              jobs_fit in
          let again = message_of add.id payload in
          let (p, made) = writes job msg.payload well_formed in
          let decodes : host.decode_job payload ≡ some (counted job) =
            unfold job_payload in rw made (reads (counted job) p made) in
          let jobs : channel d.jobs_topic (enqueue none false d.jobs_topic payload popped).1
              ≡ rest ++ again ∷ [] =
            add.holds d.jobs_topic
            ∙ rw (eq_refl d.jobs_topic)
                (ap (λ (l : List (Message P)). l ++ again ∷ []) jobs-popped) in
          let others : channel d.results_topic (enqueue none false d.jobs_topic payload popped).1
              ≡ channel d.results_topic m =
            add.holds d.results_topic ∙ rw apart results-popped in
          let waits = rw well_formed at (rw front at h.waits) in
          turn_of_ack e (suc k) (retry d host memory_ops (counted job) (popped, e')) same
            (rw accepted)
            (record {
              waits = rw jobs (
                  rw (total-append d host rest (again ∷ []))
                    (rw decodes (omega (arith, attempts_left-counted job c more))));
              fits = rw jobs (
                  Fits-append d host rest (again ∷ []) (rw front at h.fits).1
                    (rw decodes (counted-IsCounted job c more), tt));
              numbered = add.next;
              numbers_left = omega (arith, h.numbers_left);
              jobs_room =
                  rw jobs
                    (rw (length-append rest (again ∷ [])) (omega (arith, rw front at h.jobs_room)));
              results_room =
                  rw (add.holds d.results_topic)
                    (rw apart (omega (arith, h.results_room, ap length results-popped)));
            })
            (omega (
              arith,
              ap waiting jobs,
              jobs_in-append d host chosen weigh rest (again ∷ []),
              ap (job_weight d host chosen weigh) decodes,
              ap waiting front,
              ap (job_weight d host chosen weigh) well_formed,
              ap finished others,
              ap buried (dead-enqueued d.jobs_topic payload ∙ dead-popped d.jobs_topic),
            ))

      call_turn :
          (reply : Rpc InferenceResponse)
          → host.router (length e.calls) (request host (counted job)) ≡ reply
          → IsCounted job
          → on_message d host memory_ops msg (popped, e)
            ≡ after_call d host memory_ops (counted job) msg.payload reply (popped, called)
          → Turned n m (consume_one (on_message d host memory_ops) d.jobs_topic (m, e))
      call_turn (ok resp) replied c same = publish_turn resp replied same
      call_turn (status code text) replied c same =
          elim (Bool-cases (leb_ℤ job.max_attempts (counted job).attempt)) [
            | inl spent ↦
                bury_turn (host.error_text code text) failing
                  (same ∙ (unfold on_failure in rw spent))
            | inr more ↦ retry_turn failing c more (same ∙ (unfold on_failure in rw more))
          ]
        where
          failing : Effects
          failing = record called { failed = bump d.has_metrics e.failed }

      job_turn : Turned n m (consume_one (on_message d host memory_ops) d.jobs_topic (m, e))
      unfolding on_message handle
      job_turn =
          call_turn (host.router (length e.calls) (request host (counted job))) refl
            (rw well_formed at (rw front at h.fits).0) (rw well_formed)

    message_turn :
        (e : Effects) → Turned n m (consume_one (on_message d host memory_ops) d.jobs_topic (m, e))
    message_turn e = elim (Option-cases (host.decode_job msg.payload)) [
      | inl malformed ↦ drop_turn e malformed
      | inr (job, well_formed) ↦ job_turn job e well_formed
    ]

  idle_turn :
      (n k : ℕ) (m : Memory P) (e : Effects)
      → IsReady d host (suc n) k m
      → channel d.jobs_topic m ≡ []
      → Turned n m (consume_one (on_message d host memory_ops) d.jobs_topic (m, e))
  unfolding consume_one
  idle_turn n k m e h empty = record {
    after = (m, e);
    returns = rw empty;
    count = k;
    ready = record {
      waits = rw empty (omega arith);
      fits = h.fits;
      numbered = h.numbered;
      numbers_left = omega (arith, h.numbers_left);
      jobs_room = h.jobs_room;
      results_room = omega (arith, h.results_room);
    };
    kept = refl;
  }

  pub turn :
      (n k : ℕ) (m : Memory P) (e : Effects) (ch : List (Message P))
      → channel d.jobs_topic m ≡ ch
      → IsReady d host (suc n) k m
      → Turned n m (consume_one (on_message d host memory_ops) d.jobs_topic (m, e))
  turn n k m e [] front h = idle_turn n k m e h front
  turn n k m e (msg ∷ rest) front h = message_turn n k msg rest m h front e
