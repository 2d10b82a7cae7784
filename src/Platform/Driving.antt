-- ===== src/Platform/Driving.antt =====
-- A vehicle of services/fleet-simulator-go and the gateway of services/gateway-go: the requests that
-- `sendInfer` of vehicle.go makes are served by the gateway's HTTP server.
mod Tests
use distributed_ml_inference.Prelude.{
  ℕ, ℤ, pos, String, text_append, Bool, true, false, Bool-cases, Option, Option-cases, none, some,
  List, [], ◌∷◌, ◌==◌, ◌≡◌, ◌↔◌, refl, sym, ap, ◌∙◌, inl, inr, lookup, if◌then◌else◌, eq_iff, arith,
}
use distributed_ml_inference.Models.{F64, Time}
use distributed_ml_inference.Metrics.{Set, ResponseWriter, middleware, status_recorder}
use distributed_ml_inference.Mux.{Values, Target, found, target}
use distributed_ml_inference.Proto.{Code, InferenceResponse, Rpc, ok, status}
use distributed_ml_inference.Fleet.Vehicle.{
  Config, HttpRequest, Reply, answered, failed, Http, outcome, send_infer,
}
use distributed_ml_inference.Fleet.Vehicle as Vehicle
use distributed_ml_inference.Gateway.Ratelimit.{Limiter}
use distributed_ml_inference.Gateway.Handler.{
  Host, InferRequest, Response, Body, request, infer_response,
}
use distributed_ml_inference.Gateway.Handler as Handler
use distributed_ml_inference.Gateway.Entry.{
  Caller, guarded, chain, unauthorized, too_many, write_response,
}
use distributed_ml_inference.Gateway.Entry.Admission.{admits, allowed, guarded_if}
use distributed_ml_inference.Gateway.Service.{Gateway, Request, State, infer, mux, chained, serve}
use distributed_ml_inference.Gateway.Service as Service
use distributed_ml_inference.Gateway.Service.Routes.{infers, target-Reaches}

-- The request that the gateway's decoder reads of a vehicle's JSON, which has no model version.
abbrev pub as_gateway : Vehicle.InferRequest → InferRequest
as_gateway req = record {
  vehicle_id = req.vehicle_id;
  model_name = req.model_name;
  model_version = "";
  precision = req.precision;
  features = req.features;
  priority = req.priority;
}

-- What becomes of a request between the two: it is answered, it does not reach the gateway, or it
-- does and its answer is lost, as where the client's timeout ends it.
pub data Passage : Type 0 where
  carried : Passage
  unreached unanswered : String → Passage

-- What stands between the two: http.NewRequest, JSON, the headers as they arrive, net/url, the
-- network, the connection's addresses and the time.
pub record Wire (B : Type 0) : Type 0 where
  pub request_error : (method url : String) → Option String
  pub passage : HttpRequest B → Passage
  pub received : List (String × String) → List (String × String)
  pub marshal : Vehicle.InferRequest → B
  pub decode : B → Option InferRequest
  pub parts_of : String → List String
  pub host : Option String
  pub remote_addr : String
  pub at : Time
  pub elapsed : ℤ
  pub refusal : ℤ → String

-- r.Header.Get
unfoldable pub header : String → List (String × String) → String
header name [] = ""
header name ((key, value) ∷ headers) = if key == name then value else header name headers

-- The headers of a vehicle.
abbrev headers_of : Config → List (String × String)
headers_of cfg =
    ("Content-Type", "application/json")
    ∷ (if cfg.api_key == "" then [] else ("X-API-Key", cfg.api_key) ∷ [])

-- The request that a vehicle makes of its features.
abbrev pub asked : Config → List F64 → Vehicle.InferRequest
asked cfg features = record {
  vehicle_id = cfg.id;
  model_name = "driving-event-classifier";
  precision = "fp32";
  priority = "normal";
  features = features;
}

abbrev pub sent_of : {B : Type 0} → Wire B → Config → List F64 → HttpRequest B
sent_of wire cfg features = record {
  method = "POST";
  url = text_append cfg.gateway_url "/v1/infer";
  headers = headers_of cfg;
  body = wire.marshal (asked cfg features);
}

-- The gateway reads a vehicle's request as it was made: its JSON, its key, and the path of its URL.
pub record Carries {B : Type 0} (wire : Wire B) (cfg : Config) (features : List F64) : Type 0 where
  pub reads :
      wire.decode (wire.marshal (asked cfg features)) ≡ some (as_gateway (asked cfg features))
  pub key :
      header "X-API-Key" (wire.received (headers_of cfg)) ≡ header "X-API-Key" (headers_of cfg)
  pub path : wire.parts_of (text_append cfg.gateway_url "/v1/infer") ≡ "v1" ∷ "infer" ∷ []

-- A writer that keeps the status.
abbrev pub status_writer : ResponseWriter Body ℕ
status_writer = record { write_header = λ code w. code; write = λ b w. w }

abbrev replied : Option ℕ → Reply
replied none = failed "EOF"
replied (some code) = answered (pos code)

refused : {X : Type 0} {text : String} → ◌≡◌ {A = Option String} (some text) none → X
refused h = absurd (cc)

no_answer :
    {X : Type 0} {code : Code} {text : String} {resp : InferenceResponse}
    → ◌≡◌ {A = Rpc InferenceResponse} (status code text) (ok resp)
    → X
no_answer h = absurd (cc)

module _ {C H G L P Q B : Type 0} (gateway : Gateway C H G L P Q ℕ) (host : Host P)
    (wire : Wire B) where
  abbrev pub arrives : HttpRequest B → Request
  arrives r = record {
    method = r.method;
    parts = wire.parts_of r.url;
    elapsed = wire.elapsed;
    caller = record {
      api_key = header "X-API-Key" (wire.received r.headers);
      host = wire.host;
      remote_addr = wire.remote_addr;
      at = wire.at;
    };
    decoded = wire.decode r.body;
  }

  -- The gateway, where only the status of its responses is kept.
  abbrev recorded : Gateway C H G L P Q ℕ
  recorded = record gateway { writer = status_writer }

  -- What the client's Do returns.
  abbrev came : {S : Type 0} → Passage → Option ℕ → S → S → Reply × S
  came carried w state state' = (replied w, state')
  came (unreached e) w state state' = (failed e, state)
  came (unanswered e) w state state' = (failed e, state')

  -- The vehicle's HTTP client, with the gateway at its end.
  abbrev pub http : Http B (Set C H G × (Limiter L × Q))
  http = record {
    request_error = wire.request_error;
    marshal = wire.marshal;
    send = λ r state.
        let (w, state') = serve recorded host (arrives r) 200 state in
        came (wire.passage r) w state state';
    refusal = wire.refusal;
  }

  -- What the gateway answers to a request to /v1/infer.
  abbrev answer_to : Caller → Limiter L → Response → Response
  answer_to caller l response =
      if admits gateway.keys caller.api_key
      then (if (allowed gateway.rate caller l).0 then response else too_many)
      else unauthorized

  guarded-answer :
      (caller : Caller) (response : Response) (l : Limiter L) (q : Q)
      → (guarded gateway.rate gateway.keys caller (λ q. (some response, q)) (l, q)).0
        ≡ some (answer_to caller l response)
  guarded-answer caller response l q =
      rw (guarded_if gateway.rate gateway.keys caller (λ q. (some response, q)) l q)
        (elim (Bool-cases (admits gateway.keys caller.api_key)) [
          | inl passes ↦ elim (Bool-cases (allowed gateway.rate caller l).0) [
            | inl token ↦ rw (passes, token) refl
            | inr empty ↦ rw (passes, empty) refl
          ]
          | inr stopped ↦ rw stopped refl
        ])

  served_infer :
      (r : Request) (set : Set C H G) (l : Limiter L) (q : Q)
      → r.method ≡ "POST"
      → r.parts ≡ "v1" ∷ "infer" ∷ []
      → (serve recorded host r 200 (set, (l, q))).0
        ≡ some (answer_to r.caller l (Handler.infer host r.decoded)).status
  unfolding serve chain middleware status_recorder
  served_infer r set l q is_post is_infer =
      let reached : target mux r.method r.parts ≡ found infer [] =
        (target-Reaches infer r.method r.parts []).1 (rw (is_post, is_infer) infers) in
      ap (λ t. (Service.answered recorded host r t 200 (set, (l, q))).0) reached
      ∙ rw (guarded-answer r.caller (Handler.infer host r.decoded) l q, chain) refl

  -- The caller that the gateway sees of a vehicle.
  abbrev pub caller_of : Config → Caller
  caller_of cfg = record {
    api_key = cfg.api_key;
    host = wire.host;
    remote_addr = wire.remote_addr;
    at = wire.at;
  }

  header_of : (cfg : Config) → header "X-API-Key" (headers_of cfg) ≡ cfg.api_key
  unfolding header
  header_of cfg = elim (Bool-cases (cfg.api_key == "")) [
    | inl t ↦
        let e : cfg.api_key ≡ "" = ground (arith, eq_iff cfg.api_key "") in rw (t, header) (sym e)
    | inr f ↦ rw (f, header) refl
  ]

  abbrev answer_of : Config → List F64 → Limiter L → Response
  answer_of cfg features l =
      answer_to (caller_of cfg) l
        (infer_response host (host.router (request host (as_gateway (asked cfg features)))))

  served_vehicle :
      (cfg : Config) (f : F64) (fs : List F64) (set : Set C H G) (l : Limiter L) (q : Q)
      → Carries wire cfg (f ∷ fs)
      → (serve recorded host (arrives (sent_of wire cfg (f ∷ fs))) 200 (set, (l, q))).0
        ≡ some (answer_of cfg (f ∷ fs) l).status
  unfolding Handler.infer
  served_vehicle cfg f fs set l q carries =
      let r = arrives (sent_of wire cfg (f ∷ fs)) in
      served_infer r set l q refl carries.path
      ∙ ap
          (λ key.
            some
              (answer_to (record (caller_of cfg) { api_key = key }) l
                (Handler.infer host r.decoded)).status)
          (carries.key ∙ header_of cfg)
      ∙ ap (λ d. some (answer_to (caller_of cfg) l (Handler.infer host d)).status) carries.reads

  -- An answer that a vehicle counts as a good one.
  good :
      (a t : Bool) (rpc : Rpc InferenceResponse)
      → (outcome http (
            answered (
              pos
                (if a
                  then (if t then infer_response host rpc else too_many)
                  else unauthorized).status))
          ≡ none)
        ↔ ((a ≡ true) × (t ≡ true) × (resp : InferenceResponse) × (rpc ≡ ok resp))
  good true true (ok resp) = (λ _. (refl, refl, resp, refl), λ _. refl)
  good true true (status code text) = (λ e. refused e, λ (_, _, resp, e). no_answer e)
  good true false rpc = (λ e. refused e, λ (_, t, _, _). absurd (cc))
  good false t rpc = (λ e. refused e, λ (a, _, _, _). absurd (cc))

  -- What `sendInfer` returns without an error.
  sent_well :
      (cfg : Config) (features : List F64) (state : Set C H G × (Limiter L × Q))
      → ((send_infer http cfg features state).0 ≡ none) ↔ (
          (wire.request_error "POST" (text_append cfg.gateway_url "/v1/infer") ≡ none)
          × (wire.passage (sent_of wire cfg features) ≡ carried)
          × (outcome http
                (replied (serve recorded host (arrives (sent_of wire cfg features)) 200 state).0)
              ≡ none))
  unfolding send_infer
  sent_well cfg features state =
      elim (Option-cases (wire.request_error "POST" (text_append cfg.gateway_url "/v1/infer"))) [
        | inl made ↦ rw (made, send_infer) (passing (wire.passage (sent_of wire cfg features)))
        | inr (e, is) ↦ rw (is, send_infer) (λ h. refused h, λ (h, _, _). refused h)
      ]
    where
      passing :
          (p : Passage)
          → let out = serve recorded host (arrives (sent_of wire cfg features)) 200 state in
            (outcome http (came p out.0 state out.1).0 ≡ none) ↔ (
              ◌≡◌ {A = Option String} none none
              × (p ≡ carried)
              × (outcome http (replied out.0) ≡ none))
      passing carried = (λ h. (refl, refl, h), λ (_, _, h). h)
      passing (unreached e) = (λ h. refused h, λ (_, p, _). absurd (cc))
      passing (unanswered e) = (λ h. refused h, λ (_, p, _). absurd (cc))

  pub send_infer-answered :
      (cfg : Config) (f : F64) (fs : List F64) (set : Set C H G) (l : Limiter L) (q : Q)
      → Carries wire cfg (f ∷ fs)
      → ((send_infer http cfg (f ∷ fs) (set, (l, q))).0 ≡ none) ↔ (
          (wire.request_error "POST" (text_append cfg.gateway_url "/v1/infer") ≡ none)
          × (wire.passage (sent_of wire cfg (f ∷ fs)) ≡ carried)
          × (admits gateway.keys cfg.api_key ≡ true)
          × ((allowed gateway.rate (caller_of cfg) l).0 ≡ true)
          × (resp : InferenceResponse) × (host.router
                (request host (as_gateway (asked cfg (f ∷ fs))))
              ≡ ok resp))
  send_infer-answered cfg f fs set l q carries =
      let (there, back) = sent_well cfg (f ∷ fs) (set, (l, q)) in
      let same = ap (λ w. outcome http (replied w)) (served_vehicle cfg f fs set l q carries) in
      let (good_there, good_back) =
        good (admits gateway.keys cfg.api_key) (allowed gateway.rate (caller_of cfg) l).0
          (host.router (request host (as_gateway (asked cfg (f ∷ fs))))) in
      (
        λ h.
            let (made, arrived, well) = there h in
            let (key, token, resp, is) = good_there (sym same ∙ well) in
            (made, arrived, key, token, resp, is),
        λ (made, arrived, key, token, resp, is).
            back (made, arrived, same ∙ good_back (key, token, resp, is)),
      )
