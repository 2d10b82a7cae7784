-- ===== src/Router/Registry.antt =====
-- services/router-go/internal/routing/registry.go: the live worker pool. A method runs under the
-- registry's lock, so each is one step; the time that it reads is an argument.
pub mod Keyed
pub mod Snapshot
use distributed_ml_inference.Prelude.{
  ℕ, ℤ, pos, String, Bool, none, some, List, [], ◌-ℤ◌, ltb_ℤ, lookup, insert, values, keep, sort,
  text_leb, length,
}
use distributed_ml_inference.Models.{WorkerInfo, Time, Duration}

pub record Worker : Type 0 where
  pub info : WorkerInfo
  pub open info use *
  pub endpoint : String

pub record Registry : Type 0 where
  pub workers : List (String × Worker)
  pub stale_after : Duration
  pub rr_counter : ℤ

-- NewRegistry
unfoldable pub new_registry : Duration → Registry
new_registry stale_after = record { workers = []; stale_after = stale_after; rr_counter = pos 0 }

-- w.LastHeartbeat = time.Now()
abbrev pub stamp : Time → Worker → Worker
stamp now w = record w { info = record w.info { last_heartbeat = now } }

unfoldable pub register : Time → Worker → Registry → Registry
register now w r = record r { workers = insert w.id (stamp now w) r.workers }

-- The three writes of `Heartbeat` to a worker that is there.
abbrev pub beat : Time → ℤ → ℤ → Worker → Worker
beat now latency_ms in_flight w = record w {
  info = record w.info {
    last_heartbeat = now;
    last_latency_ms = latency_ms;
    in_flight = in_flight;
  };
}

unfoldable pub heartbeat : Time → String → ℤ → ℤ → Registry → Registry
heartbeat now id latency_ms in_flight r = elim (lookup id r.workers) [
  | none ↦ r
  | some w ↦ record r { workers = insert id (beat now latency_ms in_flight w) r.workers }
]

-- w.LastHeartbeat.After(now - staleAfter)
unfoldable pub is_live : Time → Duration → Worker → Bool
is_live now stale_after w = ltb_ℤ (now -ℤ stale_after) w.last_heartbeat

abbrev pub by_id : Worker → Worker → Bool
by_id a b = text_leb a.id b.id

unfoldable pub snapshot : Time → Registry → List Worker
snapshot now r = sort by_id (keep (is_live now r.stale_after) (values r.workers))

unfoldable pub count : Time → Registry → ℕ
count now r = length (snapshot now r)
