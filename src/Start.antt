-- ===== src/Start.antt =====
-- server/main.cpp and client/main.cpp: the arguments, which both read by the same text, and how
-- the server comes to its second `try` block; what it does there is in GameProcess. `getopt_long`
-- is the list of what it returns, and whether `Log::Init` throws is a parameter.
pub mod Arguments
pub mod Tests
use fighting_card.Base.{
  ℕ, Bool, true, false, not, Option, none, some, List, [], ◌∷◌, ◌++◌, if◌then◌else◌, ◌==◌, length,
  take,
}
use fighting_card.Base.Text.{Text}
use fighting_card.Config.{ServerConfig}

-- 'd', 'c' with its `optarg`, '?' or another value.
pub data Opt : Type 0 where
  debug : Opt
  config : Text → Opt
  unknown : Opt

pub record Options : Type 0 where
  pub daemon_status : Bool
  pub config_path : Text

-- The loop; `none` is `Tip()` and the return of 1.
unfoldable pub parse_options : List Opt → Options → Option Options
parse_options [] o = some o
parse_options (debug ∷ opts) o = parse_options opts (record o { daemon_status = true })
parse_options (config path ∷ opts) o = parse_options opts (record o { config_path = path })
parse_options (unknown ∷ opts) o = none

abbrev pub no_options : Options
no_options = record { daemon_status = false; config_path = [] }

-- What the start does, in order.
pub data Step : Type 0 where
  create_daemon : Step
  init_log : Bool → Step
  init_pool : ℕ → Step
  init_logic post_init : Step
  accept : Text → Text → Step
  run_master join_logic join_pool : Step

abbrev pub daemon_steps : Bool → List Step
daemon_steps true = create_daemon ∷ []
daemon_steps false = []

-- The steps of the second `try` block.
abbrev pub service_steps : ServerConfig → List Step
service_steps c =
    init_pool c.attr.thread
    ∷ init_logic
    ∷ post_init
    ∷ accept c.attr.ip c.attr.port
    ∷ run_master
    ∷ join_logic
    ∷ join_pool
    ∷ []

-- How far `main` comes before the second `try` block: it has returned a value, or it goes on with
-- the steps of a configuration.
pub data Start : Type 0 where
  returns : List Step → ℕ → Start
  serves : List Step → ServerConfig → Start

module _ (load : Text → ServerConfig → Bool × ServerConfig) (log_throws : Bool)
    (initial : ServerConfig) where
  -- From the loaded configuration on, with the steps that are done.
  abbrev pub start_loaded : Options → Bool × ServerConfig → Start
  start_loaded o (false, c) = returns (daemon_steps o.daemon_status) 255
  start_loaded o (true, c) =
      let logged = daemon_steps o.daemon_status ++ init_log (not o.daemon_status) ∷ [] in
      if log_throws then returns logged 1 else serves logged c

  abbrev pub start_parsed : Option Options → Start
  start_parsed none = returns [] 1
  start_parsed (some o) =
      if length o.config_path == 0
      then returns [] 1
      else start_loaded o (load o.config_path initial)

  -- `main` of the server up to its second `try`; the value -1 is the status 255. A log that throws
  -- is not counted as a step.
  unfoldable pub server_main : List Opt → Start
  server_main opts = start_parsed (parse_options opts no_options)
