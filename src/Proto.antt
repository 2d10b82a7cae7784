-- ===== src/Proto.antt =====
-- shared/proto/inference/v1/inference.pb.go: the messages between gateway, scheduler and router.
-- An enum of proto3 is open: `unrecognized n` is a number with no name.
use distributed_ml_inference.Prelude.{ℤ, String, Bool, List}
use distributed_ml_inference.Models.{F32}

pub data Precision : Type 0 where
  unspecified fp32 fp16 int8 int4 : Precision
  unrecognized : ℤ → Precision

pub data Priority : Type 0 where
  normal high critical : Priority
  unrecognized : ℤ → Priority

pub record InferenceRequest : Type 0 where
  pub request_id : String
  pub vehicle_id : String
  pub model_name : String
  pub model_version : String
  pub preferred_precision : Precision
  pub features : List F32
  pub priority : Priority
  pub submitted_at_unix_ms : ℤ

pub record InferenceResponse : Type 0 where
  pub request_id : String
  pub worker_id : String
  pub model_name : String
  pub model_version : String
  pub precision_used : Precision
  pub output : List F32
  pub predicted_label : String
  pub confidence : F32
  pub latency_ms : ℤ
  pub queue_time_ms : ℤ

pub record HealthResponse : Type 0 where
  pub status : String
  pub active_workers : ℤ
  pub queue_depth : ℤ
  pub router_version : String

pub record RegisterWorkerRequest : Type 0 where
  pub worker_id : String
  pub supported_models : List String
  pub gpu_available : Bool
  pub max_precision : Precision
  pub endpoint : String

pub record RegisterWorkerResponse : Type 0 where
  pub accepted : Bool

-- google.golang.org/grpc/codes, those that the router answers with
pub data Code : Type 0 where
  invalid_argument unavailable internal : Code

-- A gRPC call returns a reply, or a status with a code and a message.
pub data Rpc (A : Type 0) : Type 0 where
  ok : A → Rpc A
  status : Code → String → Rpc A
