-- ===== src/Log.antt =====
-- common/log.h and common/log.cpp: the logger of a program, which spdlog makes. A message is
-- formatted by spdlog; here it is what the macro passes on.
pub mod Switched
use fighting_card.Base.{
  ℕ, Bool, true, false, Option, none, some, List, [], ◌∷◌, ◌++◌, if◌then◌else◌, leb, ◌>>=◌,
}
use fighting_card.Base.Text.{Text}

-- `stdout_color_sink_mt` or `hourly_file_sink_mt`; both are given the same pattern.
pub data Sink : Type 0 where
  stdout_color_sink : Sink
  hourly_file_sink : Text → Sink

-- `async_logger`, with what it and its sinks were given; a level is a number.
pub record Logger : Type 0 where
  pub name : Text
  pub sinks : List Sink
  pub level : ℕ
  pub flush_level : ℕ

-- The singleton, and the size and threads of spdlog's thread pool.
pub record Log : Type 0 where
  pub logger : Option Logger
  pub thread_pool : Option (ℕ × ℕ)

unfoldable pub new_log : Log
new_log = record { logger = none; thread_pool = none }

-- `get_logger`; the assertion that fails is `none`.
unfoldable pub get_logger : Log → Option Logger
get_logger l = l.logger

unfoldable pub set_logger : Logger → Log → Log
set_logger logger l = record l { logger = some logger }

abbrev pub sinks_of : Bool → Text → List Sink
sinks_of stdout_switch log_path =
    (if stdout_switch then stdout_color_sink ∷ [] else []) ++ hourly_file_sink log_path ∷ []

-- `Init` with levels.
unfoldable pub init_levels : Text → Text → ℕ → ℕ → Bool → ℕ → Log → Log
init_levels log_name log_path log_level flush_level stdout_switch thread_num l =
    set_logger
      (record {
        name = log_name;
        sinks = sinks_of stdout_switch log_path;
        level = log_level;
        flush_level = flush_level;
      })
      (record l { thread_pool = some (8192, thread_num) })

-- `Init` with the names of levels, which `from_str` reads.
unfoldable pub init : (Text → ℕ) → Text → Text → Text → Text → Bool → ℕ → Log → Log
init from_str log_name log_path log_level_name flush_level_name stdout_switch thread_num l =
    init_levels log_name log_path (from_str log_level_name) (from_str flush_level_name)
      stdout_switch thread_num l

-- A message of a level as `LOG_TRACE` to `LOG_CRITICAL` give it to `get_logger()`: the sinks that
-- it goes to, and whether they are flushed.
unfoldable pub log : ℕ → Log → Option (List Sink × Bool)
log level l = do
  logger ← get_logger l
  some (if leb logger.level level then logger.sinks else [], leb logger.flush_level level)
