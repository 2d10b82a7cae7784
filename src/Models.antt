-- ===== src/Models.antt =====
-- shared/pkg/models/models.go: the domain types. A float64 or float32 is held as its bit pattern;
-- a time or a duration is a whole number of nanoseconds.
use distributed_ml_inference.Prelude.{ℕ, ℤ, pos, String, Bool, List}

abbrev pub F64 : Type 0
F64 = ℕ

abbrev pub F32 : Type 0
F32 = ℕ

abbrev pub Time : Type 0
Time = ℤ

abbrev pub Duration : Type 0
Duration = ℤ

-- Any text can stand in a `Precision`.
abbrev pub Precision : Type 0
Precision = String

abbrev pub precision_fp32 : Precision
precision_fp32 = "fp32"

abbrev pub precision_fp16 : Precision
precision_fp16 = "fp16"

abbrev pub precision_int8 : Precision
precision_int8 = "int8"

abbrev pub precision_int4 : Precision
precision_int4 = "int4"

-- Any int can stand in a `Priority`.
abbrev pub Priority : Type 0
Priority = ℤ

abbrev pub priority_normal : Priority
priority_normal = pos 0

abbrev pub priority_high : Priority
priority_high = pos 1

abbrev pub priority_critical : Priority
priority_critical = pos 2

pub record TelemetryEvent : Type 0 where
  pub vehicle_id : String
  pub timestamp : Time
  pub speed : F64
  pub accel : F64
  pub steering_deg : F64
  pub lat : F64
  pub lon : F64
  pub event_label : String

pub record InferenceJob : Type 0 where
  pub id : String
  pub vehicle_id : String
  pub model_name : String
  pub model_version : String
  pub prefer_precision : Precision
  pub features : List F64
  pub priority : Priority
  pub submitted_at : Time
  pub attempt : ℤ
  pub max_attempts : ℤ

pub record InferenceResult : Type 0 where
  pub job_id : String
  pub worker_id : String
  pub model_name : String
  pub model_version : String
  pub precision_used : Precision
  pub output : List F64
  pub predicted_label : String
  pub confidence : F64
  pub latency_ms : ℤ
  pub queue_time_ms : ℤ
  pub error : String

abbrev pub ModelStage : Type 0
ModelStage = String

abbrev pub stage_staging : ModelStage
stage_staging = "staging"

abbrev pub stage_production : ModelStage
stage_production = "production"

abbrev pub stage_archived : ModelStage
stage_archived = "archived"

pub record ModelVersion : Type 0 where
  pub model_name : String
  pub version : String
  pub stage : ModelStage
  pub precision : Precision
  pub artifact_path : String
  pub metrics : List (String × F64)
  pub traffic_pct : ℤ
  pub created_at : Time

pub record WorkerInfo : Type 0 where
  pub id : String
  pub supported_models : List String
  pub gpu_available : Bool
  pub max_precision : Precision
  pub last_latency_ms : ℤ
  pub in_flight : ℤ
  pub last_heartbeat : Time
