-- ===== src/Start/Arguments.antt =====
-- Which arguments start the server.
use fighting_card.Base.{
  none, ◌≡◌, ◌≢◌, ◌↔◌, ◌∙◌, refl, ap, not, ◌++◌, inl, inr, Bool, true, false, ◌||◌, some, List, [],
  ◌∷◌, arith, if◌then◌else◌, Bool-cases, ◌==◌, length,
}
use fighting_card.Base.Text.{Text}
use fighting_card.Config.{ServerConfig}
use fighting_card.Start.{
  Opt, debug, config, unknown, Options, parse_options, no_options, start_loaded, server_main,
  serves, Step, create_daemon, init_log, daemon_steps,
}

abbrev pub is_known : Opt → Bool
is_known debug = true
is_known (config path) = true
is_known unknown = false

abbrev pub all_known : List Opt → Bool
all_known [] = true
all_known (o ∷ opts) = if is_known o then all_known opts else false

abbrev pub any_debug : List Opt → Bool
any_debug [] = false
any_debug (debug ∷ opts) = true
any_debug (config path ∷ opts) = any_debug opts
any_debug (unknown ∷ opts) = any_debug opts

-- The last path, or `old`.
abbrev pub last_config : Text → List Opt → Text
last_config old [] = old
last_config old (debug ∷ opts) = last_config old opts
last_config old (config path ∷ opts) = last_config path opts
last_config old (unknown ∷ opts) = last_config old opts

or_true : (b : Bool) → (b || true) ≡ true
or_true true = refl
or_true false = refl

pub parse-known :
    (opts : List Opt) (o : Options)
    → all_known opts ≡ true
    → parse_options opts o
      ≡ some (record {
        daemon_status = any_debug opts || o.daemon_status;
        config_path = last_config o.config_path opts;
      })
unfolding parse_options
parse-known [] o h = refl
parse-known (debug ∷ opts) o h =
    parse-known opts (record o { daemon_status = true }) h ∙ rw (or_true (any_debug opts)) refl
parse-known (config path ∷ opts) o h = parse-known opts (record o { config_path = path }) h
parse-known (unknown ∷ opts) o h = absurd (cc h)

parse-unknown :
    (opts : List Opt) (o : Options) → all_known opts ≡ false → parse_options opts o ≡ none
unfolding parse_options
parse-unknown [] o h = absurd (cc h)
parse-unknown (debug ∷ opts) o h = parse-unknown opts (record o { daemon_status = true }) h
parse-unknown (config path ∷ opts) o h = parse-unknown opts (record o { config_path = path }) h
parse-unknown (unknown ∷ opts) o h = refl

empty_path : (t : Text) → (length t == 0) ≡ false → t ≢ []
empty_path [] h e = cc h
empty_path (c ∷ t) h e = cc e

no_path : (t : Text) → (length t == 0) ≡ true → t ≡ []
no_path [] h = refl
no_path (c ∷ t) h = ground (arith, h)

module _ (load : Text → ServerConfig → Bool × ServerConfig) (log_throws : Bool)
    (initial : ServerConfig) (opts : List Opt) where
  abbrev pub path : Text
  path = last_config [] opts

  -- What is done before: the daemon if it was asked for, and the log, to stdout too if not.
  abbrev pub steps_before : List Step
  steps_before = if any_debug opts then create_daemon ∷ init_log false ∷ [] else init_log true ∷ []

  same_steps :
      (b : Bool)
      → daemon_steps (b || false) ++ init_log (not (b || false)) ∷ []
        ≡ (if b then create_daemon ∷ init_log false ∷ [] else init_log true ∷ [])
  same_steps true = refl
  same_steps false = refl

  abbrev options : Options
  options = record { daemon_status = any_debug opts || false; config_path = path }

  loaded_serves :
      (r : Bool × ServerConfig)
      → (start_loaded load log_throws initial options r ≡ serves steps_before r.1)
        ↔ ((r.0 ≡ true) × (log_throws ≡ false))
  loaded_serves (false, c) = (λ e. absurd (cc e), λ h. absurd (cc h.0))
  loaded_serves (true, c) = elim (Bool-cases log_throws) [
    | inl e ↦ rw e (λ z. absurd (cc z), λ h. absurd (cc h.1))
    | inr e ↦ rw e (λ z. (refl, refl), λ h. ap (λ s. serves s c) (same_steps (any_debug opts)))
  ]

  -- The server comes to its second `try` block, with the daemon and the log made as the arguments
  -- ask and with the configuration of the last path, exactly if all arguments are known, one gives
  -- a path, the last path loads, and the log does not throw.
  pub server_main_starts :
      (server_main load log_throws initial opts ≡ serves steps_before (load path initial).1) ↔ (
        (all_known opts ≡ true)
        × (path ≢ [])
        × ((load path initial).0 ≡ true)
        × (log_throws ≡ false))
  unfolding server_main
  server_main_starts = elim (Bool-cases (all_known opts)) [
    | inr e ↦ rw (parse-unknown opts no_options e, e) (λ z. absurd (cc z), λ h. absurd (cc h.0))
    | inl e ↦
        rw (parse-known opts no_options e, e)
          (elim (Bool-cases (length path == 0)) [
            | inl none_given ↦
                rw none_given (λ z. absurd (cc z), λ h. absurd (h.1 (no_path path none_given)))
            | inr given ↦ rw given (
              λ z.
                  let r = (loaded_serves (load path initial)).0 z in
                  (refl, empty_path path given, r.0, r.1),
              λ h. (loaded_serves (load path initial)).1 (h.2, h.3),
            )
          ])
  ]
