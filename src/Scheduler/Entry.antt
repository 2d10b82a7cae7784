-- ===== src/Scheduler/Entry.antt =====
-- services/scheduler-go/cmd/scheduler/main.go: the dispatcher that the environment configures.
pub mod Process
use distributed_ml_inference.Prelude.{pos, String, Option, true}
use distributed_ml_inference.Models.{Duration}
use distributed_ml_inference.Config.{Environment, Backend, string, duration, from_env}
use distributed_ml_inference.Scheduler.{Dispatcher}

pub record Settings : Type 0 where
  pub router_addr : String
  pub backend : Backend
  pub dispatcher : Dispatcher
  pub call_timeout : Duration
  pub metrics_addr : String

-- What `main` reads from the environment, where `parse_duration` is time.ParseDuration. The
-- dispatcher has metrics.
unfoldable pub settings_of : (String → Option Duration) → Environment → Settings
unfolding from_env
settings_of parse_duration env = record {
  router_addr = string env "ROUTER_GRPC_ADDR" "localhost:9090";
  backend = from_env env;
  dispatcher = record {
    jobs_topic = string env "JOBS_TOPIC" "inference.jobs";
    results_topic = string env "RESULTS_TOPIC" "inference.results";
    retry_backoff = duration env parse_duration "RETRY_BACKOFF" (pos 200000000);
    has_metrics = true;
  };
  call_timeout = duration env parse_duration "ROUTER_CALL_TIMEOUT" (pos 5000000000);
  metrics_addr = string env "SCHEDULER_METRICS_ADDR" ":9092";
}
