-- ===== src/Gateway/Entry/Tests.antt =====
-- The gateway's chain on concrete requests.
use distributed_ml_inference.Prelude.{
  ℕ, ◌+◌, ◌-◌, eqb, pos, String, true, false, Option, none, some, List, [], ◌∷◌, ◌++◌, map, ◌==◌,
  eq_iff, lookup, insert, Elem, here, there, trim_space, trim_left, trim_right, join_with, ◌≡◌, ◌≢◌,
  refl, ◌⊎◌, if◌then◌else◌, arith, wrap64, ◌+ℤ◌,
}
use distributed_ml_inference.Models.{precision_int8}
use distributed_ml_inference.Proto.{status, unavailable}
use distributed_ml_inference.Config.{Environment}
use distributed_ml_inference.Queue.{AnyTopic}
use distributed_ml_inference.Queue.Itoa.{itoa, put_sign, itoa_loop}
use distributed_ml_inference.Queue.Memory.{
  Memory, memory_ops, enqueue, enqueue_as, chan_for, send, set_channel,
}
use distributed_ml_inference.Queue.Memory.Channels.{memory-Laws}
use distributed_ml_inference.Metrics.{Prometheus, Set, ResponseWriter, new_set}
use distributed_ml_inference.Metrics.Counts.{Runs, fresh}
use distributed_ml_inference.Gateway.Auth.{new_key_set, has}
use distributed_ml_inference.Gateway.Auth
use distributed_ml_inference.Gateway.Ratelimit.{
  Rate, Limiter, new_limiters, allow_for, limiter_for, limit, client_key,
}
use distributed_ml_inference.Gateway.Handler.{
  Host, InferRequest, Response, Body, job, is_incomplete, job_payload, submit_job, accepted,
}
use distributed_ml_inference.Gateway.Entry.{Caller, keys_of, guarded, chain}
use distributed_ml_inference.Gateway.Entry.Keys.{keys_of-admits}
use distributed_ml_inference.Gateway.Entry.Admission.{admits, allowed, guarded-accepted, chain-Runs}

abbrev env : Environment
env key = if key == "GATEWAY_API_KEYS" then some "k1, k2" else none

abbrev first : String
first = "k1"

abbrev others : List String
others = " k2" ∷ []

joined : env "GATEWAY_API_KEYS" ≡ some (join_with "," first others)
unfolding join_with
joined = refl

second_key : Elem "k2" (map trim_space (first ∷ others))
unfolding trim_space trim_left trim_right
second_key = there here

abbrev second : String
second = "k2"

keys_of-admits_example :
    (second ≢ ""
      → Elem second (map trim_space (first ∷ others))
      → ◌≡◌ {A = ℕ} (Auth.middleware (keys_of env) "k2" 401 200) 200)
    × ((second ≡ "") ⊎ (Elem second (map trim_space (first ∷ others)) → ⊥)
        → ◌≡◌ {A = ℕ} (Auth.middleware (keys_of env) "k2" 401 200) 401)
keys_of-admits_example =
    keys_of-admits env first "k2" "k2" others 401 200 joined (refl, (refl, tt))
      ((refl, (refl, (refl, tt))), tt) (λ e. ground (arith, eq_iff "k2" "")) second_key

-- A bucket of two tokens, which are never put back.
abbrev tokens : Rate ℕ
tokens = record { new_limiter = λ _ _. 2; allow = λ _ n. (if eqb n 0 then false else true, n - 1) }

abbrev host : Host ℕ
host = record {
  narrow = λ x. x;
  empty = 0;
  encode_job = λ _. some 0;
  router = λ _. status unavailable "down";
  error_text = λ _ text. text;
  new_id = "r1";
  now = pos 5000000;
}

abbrev asked : InferRequest
asked = record {
  vehicle_id = "v1";
  model_name = "detector";
  model_version = "";
  precision = precision_int8;
  features = 7 ∷ [];
  priority = "high";
}

abbrev idle : Memory ℕ
idle = record { topics = []; dlq = []; seq = pos 0; closed = false }

abbrev caller : Caller
caller = record {
  api_key = "k2";
  host = some "10.0.0.1";
  remote_addr = "10.0.0.1:5000";
  at = pos 1;
}

abbrev keys : List String
keys = "k1" ∷ "k2" ∷ []

abbrev limiter : Limiter ℕ
limiter = new_limiters tokens 0 (pos 2)

abbrev submits : Memory ℕ → Option Response × Memory ℕ
submits q = submit_job host memory_ops "jobs" (some asked) q

answered_202 :
    (guarded tokens keys caller submits (limiter, idle)).0
    ≡ some (record { status = 202; body = accepted "r1" })
unfolding guarded Auth.middleware has limit allow_for limiter_for client_key new_limiters submit_job
    enqueue enqueue_as chan_for send set_channel itoa put_sign itoa_loop wrap64 ◌+ℤ◌ lookup insert
answered_202 = refl

guarded-accepted_example :
    (admits keys "k2" ≡ true)
    × ((allowed tokens caller limiter).0 ≡ true)
    × ((guarded tokens keys caller submits (limiter, idle)).1.0 ≡ (allowed tokens caller limiter).1)
    × (req : InferRequest) × (some asked ≡ some req)
    × (is_incomplete req ≡ false)
    × ((j : String)
        → AnyTopic j
        → memory-Laws.pending (guarded tokens keys caller submits (limiter, idle)).1.1 j ≡ (
            if "jobs" == j
            then memory-Laws.pending idle j ++ job_payload host (job host req) ∷ []
            else memory-Laws.pending idle j))
guarded-accepted_example =
    guarded-accepted tokens host memory_ops memory-Laws keys caller "jobs" (some asked) limiter idle
      (accepted "r1") tt answered_202

abbrev prometheus : Prometheus ℕ ℕ ℕ
prometheus = record {
  new_counter_vec = λ namespace name help labels. 0;
  new_histogram_vec = λ namespace name help buckets labels. 0;
  new_gauge = λ namespace name help. 0;
  count = λ ls c. c + 1;
  observe = λ ls v h. h + 1;
  inc = λ g. g + 1;
  dec = λ g. g - 1;
  seconds = λ d. 0;
  itoa = λ code. "";
}

abbrev writer : ResponseWriter Body (List ℕ)
writer = record { write_header = λ code w. code ∷ w; write = λ b w. 0 ∷ w }

abbrev set : Set ℕ ℕ ℕ
set = new_set prometheus "gateway"

abbrev after : Option (List ℕ) × (Set ℕ ℕ ℕ × (Limiter ℕ × Memory ℕ))
after =
    chain tokens prometheus writer keys "/v1/jobs" "POST" (pos 5) caller submits []
      (set, (limiter, idle))

chain-Runs_example :
    (after.0 ≡ some (0 ∷ 202 ∷ []))
    × (after.1.1 ≡ (guarded tokens keys caller submits (limiter, idle)).1)
    × Runs prometheus "gateway" after.1.0 0
        (record { route = "/v1/jobs"; method = "POST"; elapsed = pos 5; status = 202 } ∷ [])
chain-Runs_example =
    chain-Runs tokens prometheus writer keys "/v1/jobs" "POST" (pos 5) caller submits [] set limiter
      idle (record { status = 202; body = accepted "r1" }) answered_202 fresh
