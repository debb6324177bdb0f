-- ===== src/Log/Switched.antt =====
-- Where messages go.
use fighting_card.Base.{
  ℕ, ◌≡◌, ◌≤◌, refl, Bool, true, false, not, none, some, [], ◌∷◌, leb, le→leb, if◌then◌else◌,
}
use fighting_card.Base.Text.{Text}
use fighting_card.Log.{
  stdout_color_sink, hourly_file_sink, Log, new_log, get_logger, set_logger, init_levels, init, log,
}

-- Before `Init` every message is a fault.
pub log-new_log : (level : ℕ) → log level new_log ≡ none
unfolding log get_logger new_log
log-new_log level = refl

-- After `Init` as a daemon, whatever had been before, a message of the level or above goes to the
-- file only; otherwise to stdout first.
pub log-init :
    (from_str : Text → ℕ) (name path level_name flush_name : Text) (daemon_status : Bool)
    (thread_num level : ℕ) (l : Log)
    → from_str level_name ≤ level
    → log level (init from_str name path level_name flush_name (not daemon_status) thread_num l)
      ≡ some (
        if daemon_status
            then hourly_file_sink path ∷ []
            else stdout_color_sink ∷ hourly_file_sink path ∷ [],
        leb (from_str flush_name) level,
      )
unfolding log get_logger init init_levels set_logger
log-init from_str name path level_name flush_name true thread_num level l high =
    rw (le→leb (from_str level_name) level high) refl
log-init from_str name path level_name flush_name false thread_num level l high =
    rw (le→leb (from_str level_name) level high) refl
