-- ===== src/Gateway/Entry.antt =====
-- services/gateway-go/cmd/gateway/main.go: what the environment configures, and the handlers as the
-- gateway chains them. The router, the queue backend, the token buckets and Prometheus are the
-- parameters of the parts.
pub mod Keys
pub mod Admission
pub mod Process
mod Tests
use distributed_ml_inference.Prelude.{
  ℕ, ℤ, pos, String, Option, none, some, List, [], ◌∷◌, map, ◌==◌, split_on, trim_space,
  if◌then◌else◌,
}
use distributed_ml_inference.Models.{F64, Time, Duration}
use distributed_ml_inference.Config.{Environment, string, int, duration}
use distributed_ml_inference.Metrics.{
  Prometheus, Set, ResponseWriter, StatusRecorder, status_recorder, begin, middleware,
}
use distributed_ml_inference.Gateway.Auth.{KeySet, new_key_set}
use distributed_ml_inference.Gateway.Auth
use distributed_ml_inference.Gateway.Ratelimit.{Rate, Limiter, new_limiters, client_key, limit}
use distributed_ml_inference.Gateway.Handler.{Response, Body, message}

unfoldable pub split_csv : String → List String
unfolding split_on trim_space
split_csv s = if s == "" then [] else map trim_space (split_on "," s)

-- The keys that `main` takes from the environment.
unfoldable pub keys_of : Environment → KeySet
unfolding split_csv
keys_of env = new_key_set (split_csv (string env "GATEWAY_API_KEYS" ""))

pub record Settings : Type 0 where
  pub router_addr : String
  pub keys : KeySet
  pub rps : ℤ
  pub burst : ℤ
  pub jobs_topic : String
  pub call_timeout : Duration
  pub addr : String

-- What `main` reads from the environment, where `parse_duration` is time.ParseDuration.
unfoldable pub settings_of : (String → Option Duration) → Environment → Settings
unfolding keys_of
settings_of parse_duration env = record {
  router_addr = string env "ROUTER_GRPC_ADDR" "localhost:9090";
  keys = keys_of env;
  rps = int env "RATE_LIMIT_RPS" (pos 50);
  burst = int env "RATE_LIMIT_BURST" (pos 100);
  jobs_topic = string env "JOBS_TOPIC" "inference.jobs";
  call_timeout = duration env parse_duration "ROUTER_CALL_TIMEOUT" (pos 5000000000);
  addr = string env "GATEWAY_ADDR" ":8080";
}

-- What the middlewares read of a request.
pub record Caller : Type 0 where
  pub api_key : String
  pub host : Option String
  pub remote_addr : String
  pub at : Time

abbrev pub unauthorized : Response
unauthorized = record {
  status = 401;
  body = message "{\"error\":\"invalid or missing X-API-Key\"}";
}

abbrev pub too_many : Response
too_many = record { status = 429; body = message "{\"error\":\"rate limit exceeded\"}" }

-- http.Error and writeJSON write the status, then the body.
abbrev pub write_response : {W : Type 0} → ResponseWriter Body W → Response → W → W
write_response writer response w =
    writer.write response.body (writer.write_header response.status w)

module _ {L : Type 0} (rate : Rate L) where
  unfoldable pub limiter_of : (ℤ → F64) → Settings → Limiter L
  limiter_of float64 settings = new_limiters rate (float64 settings.rps) settings.burst

  -- keys.Middleware(limiter.Middleware(fn)): `fn` answers a request, or does not return, and
  -- changes the queue.
  unfoldable pub guarded :
      {Q : Type 0}
      → KeySet
      → Caller
      → (Q → Option Response × Q)
      → Limiter L × Q
      → Option Response × (Limiter L × Q)
  unfolding Auth.middleware limit client_key
  guarded keys caller fn (l, q) =
      let key = client_key caller.api_key caller.host caller.remote_addr in
      let limited = limit rate caller.at key (λ q. (some too_many, q)) fn l in
      let answered = limited.0 q in
      Auth.middleware keys caller.api_key (some unauthorized, (l, q))
        (answered.0, (limited.1, answered.1))

  -- `chain`: a request that is not answered leaves the in-flight gauge as it is.
  unfoldable pub chain :
      {C H G Q W : Type 0}
      → Prometheus C H G
      → ResponseWriter Body W
      → KeySet
      → (route method : String) → Duration
      → Caller
      → (Q → Option Response × Q)
      → W
      → Set C H G × (Limiter L × Q)
      → Option W × (Set C H G × (Limiter L × Q))
  unfolding guarded middleware begin status_recorder
  chain prometheus writer keys route method elapsed caller fn w (s, state) =
      let served = guarded keys caller fn state in
      elim served.0 [
        | none ↦ (none, (begin prometheus s, served.1))
        | some response ↦
            let ended =
              middleware prometheus route method elapsed
                (λ rec (set, _).
                  (write_response (status_recorder writer) response rec, (set, served.1)))
                w (s, state) in
            (some ended.0, ended.1)
      ]
