-- ===== src/Gateway/Tests.antt =====
-- services/gateway-go on concrete keys and requests.
use distributed_ml_inference.Prelude.{
  eqb, if◌then◌else◌, true, false, ◌-◌, ℕ, pos, String, none, List, [], ◌∷◌, ◌≡◌, ◌≢◌, refl, ◌⊎◌,
  some, wrap64, ◌+ℤ◌, lookup,
}
use distributed_ml_inference.Models.{
  Time, precision_int8, precision_fp32, precision_fp16, precision_int4,
}
use distributed_ml_inference.Proto.{status, unavailable}
use distributed_ml_inference.Router.Server.{precision_to_domain}
use distributed_ml_inference.Scheduler
use distributed_ml_inference.Queue.Itoa.{itoa, put_sign, itoa_loop}
use distributed_ml_inference.Queue.Memory.{
  Memory, memory_ops, enqueue, enqueue_as, chan_for, send, set_channel,
}
use distributed_ml_inference.Gateway.Ratelimit.{
  Rate, new_limiters, answers, alone, bucket, answers-alone,
}
use distributed_ml_inference.Gateway.Handler.{
  Host, InferRequest, precision_to_proto, request, job, submit_job, accepted,
}
use distributed_ml_inference.Gateway.Agreement.{request-job, precision_roundtrip}

abbrev first : String
first = "k1"

abbrev second : String
second = "k2"

abbrev keys : List String
keys = first ∷ second ∷ []

-- A bucket of so many tokens, which are never put back.
abbrev tokens : Rate ℕ
tokens = record { new_limiter = λ _ _. 2; allow = λ _ n. (if eqb n 0 then false else true, n - 1) }

abbrev traffic : List (Time × String)
traffic = (pos 1, first) ∷ (pos 2, second) ∷ (pos 3, first) ∷ (pos 4, first) ∷ (pos 5, second) ∷ []

answers-alone_example :
    answers tokens second traffic (new_limiters tokens 0 (pos 2))
    ≡ alone tokens second traffic (bucket tokens second (new_limiters tokens 0 (pos 2)))
answers-alone_example = answers-alone tokens second traffic (new_limiters tokens 0 (pos 2))

abbrev host : Host ℕ
host = record {
  narrow = λ x. x;
  empty = 0;
  encode_job = λ _. some 0;
  router = λ _. status unavailable "down";
  error_text = λ _ text. text;
  new_id = "r1";
  now = pos 5000000;
}

abbrev scheduler : Scheduler.Host ℕ
scheduler = record {
  empty = 0;
  encode_job = λ _. some 0;
  decode_job = λ _. none;
  encode_result = λ _. some 1;
  narrow = λ x. x;
  widen = λ x. x;
  error_text = λ _ text. text;
  router = λ _ _. status unavailable "down";
}

abbrev asked : InferRequest
asked = record {
  vehicle_id = "v1";
  model_name = "detector";
  model_version = "";
  precision = precision_int8;
  features = 7 ∷ [];
  priority = "high";
}

request-job_example : Scheduler.request scheduler (job host asked) ≡ request host asked
request-job_example = request-job host scheduler asked refl

precision_roundtrip_example :
    (precision_to_domain (precision_to_proto precision_int8) ≡ precision_int8)
    ⊎ ((precision_to_domain (precision_to_proto precision_int8) ≡ "")
        × (precision_int8 ≢ precision_fp32)
        × (precision_int8 ≢ precision_fp16)
        × (precision_int8 ≢ precision_int8)
        × (precision_int8 ≢ precision_int4))
precision_roundtrip_example = precision_roundtrip precision_int8

abbrev idle : Memory ℕ
idle = record { topics = []; dlq = []; seq = pos 0; closed = false }

submitted_202 :
    (submit_job host memory_ops "jobs" (some asked) idle).0
    ≡ some (record { status = 202; body = accepted "r1" })
unfolding submit_job enqueue enqueue_as chan_for send set_channel itoa put_sign itoa_loop wrap64
    ◌+ℤ◌ lookup
submitted_202 = refl
