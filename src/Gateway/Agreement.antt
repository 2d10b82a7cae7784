-- ===== src/Gateway/Agreement.antt =====
-- The two entries of the gateway, and what the other services make of its requests.
use distributed_ml_inference.Prelude.{
  String, ◌≡◌, ◌≢◌, ◌⊎◌, refl, inl, inr, Bool-cases, true, false, ◌==◌, eq_iff, arith,
}
use distributed_ml_inference.Models.{precision_fp32, precision_fp16, precision_int8, precision_int4}
use distributed_ml_inference.Router.Server.{precision_to_domain, priority_to_domain}
use distributed_ml_inference.Scheduler
use distributed_ml_inference.Gateway.Handler.{
  Host, InferRequest, precision_to_proto, priority_to_proto, priority_from_string, request, job,
}

priority_agrees :
    (p : String) → Scheduler.priority_to_proto (priority_from_string p) ≡ priority_to_proto p
unfolding Scheduler.priority_to_proto priority_from_string priority_to_proto
priority_agrees p = elim (Bool-cases (p == "high")) [
  | inl t ↦ rw t refl
  | inr f ↦ rw f (elim (Bool-cases (p == "critical")) [ inl t ↦ rw t refl | inr g ↦ rw g refl ])
]

-- The scheduler asks the router for a submitted job what the gateway would have asked itself for the
-- same request, id and time, if both narrow a float64 in the same way.
pub request-job :
    {P S : Type 0} (host : Host P) (scheduler : Scheduler.Host S) (req : InferRequest)
    → scheduler.narrow ≡ host.narrow
    → Scheduler.request scheduler (job host req) ≡ request host req
unfolding Scheduler.request precision_to_proto Scheduler.precision_to_proto
request-job host scheduler req h = rw h (rw (priority_agrees req.priority) refl)

-- The router reads back the precision of a request, where it is one of the four that have a name,
-- and none where it is not.
pub precision_roundtrip :
    (p : String)
    → (precision_to_domain (precision_to_proto p) ≡ p)
      ⊎ ((precision_to_domain (precision_to_proto p) ≡ "")
          × (p ≢ precision_fp32)
          × (p ≢ precision_fp16)
          × (p ≢ precision_int8)
          × (p ≢ precision_int4))
unfolding precision_to_proto precision_to_domain
precision_roundtrip p = elim (Bool-cases (p == precision_fp32)) [
  | inl t ↦ rw (t, precision_to_proto) (inl (named t))
  | inr f ↦ elim (Bool-cases (p == precision_fp16)) [
    | inl t ↦ rw (f, t) (inl (named t))
    | inr g ↦ elim (Bool-cases (p == precision_int8)) [
      | inl t ↦ rw (f, g, t) (inl (named t))
      | inr k ↦ elim (Bool-cases (p == precision_int4)) [
        | inl t ↦ rw (f, g, k, t) (inl (named t))
        | inr l ↦ rw (f, g, k, l) (inr (refl, other f, other g, other k, other l))
      ]
    ]
  ]
]
  where
    named : {q : String} → (p == q) ≡ true → q ≡ p
    named {q} t = ground (arith, eq_iff p q)

    other : {q : String} → (p == q) ≡ false → p ≢ q
    other {q} f e = ground (arith, eq_iff p q)

-- A request has one priority, whether the router reads it off a synchronous call or off the job.
pub priority_roundtrip :
    (p : String) → priority_to_domain (priority_to_proto p) ≡ priority_from_string p
unfolding priority_to_domain priority_to_proto priority_from_string
priority_roundtrip p = elim (Bool-cases (p == "high")) [
  | inl t ↦ rw t refl
  | inr f ↦ rw f (elim (Bool-cases (p == "critical")) [ inl t ↦ rw t refl | inr g ↦ rw g refl ])
]
