-- ===== src/Logging.antt =====
-- shared/pkg/logging/logging.go. A logger writes a line whose level is not below its own, as
-- log/slog documents it; the format of a line is left out.
use distributed_ml_inference.Prelude.{ℕ, String, Bool, leb, none, some, ◌==◌, if◌then◌else◌}
use distributed_ml_inference.Config.{Environment}

-- slog's levels that the services log at
pub data Level : Type 0 where
  debug info warn error : Level

-- The order of slog's levels, -4, 0, 4 and 8.
abbrev pub rank : Level → ℕ
rank debug = 0
rank info = 4
rank warn = 8
rank error = 12

pub record Logger : Type 0 where
  pub level : Level
  pub service : String

-- os.Getenv
abbrev pub getenv : Environment → String → String
getenv env key = elim (env key) [ none ↦ "" | some v ↦ v ]

-- New
unfoldable pub new_logger : Environment → String → Logger
new_logger env service = record {
  level = if getenv env "LOG_LEVEL" == "debug" then debug else info;
  service = service;
}

abbrev pub writes : Logger → Level → Bool
writes log level = leb (rank log.level) (rank level)
