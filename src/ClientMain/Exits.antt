-- ===== src/ClientMain/Exits.antt =====
-- The value that `main` of the client returns.
use fighting_card.Base.{
  ℕ, ◌+◌, ◌-◌, ◌^◌, ◌≡◌, ◌≢◌, ◌≤◌, ◌<◌, ◌∙◌, refl, ap, Bool, true, false, not, Option, some, List,
  [], ◌∷◌, ◌++◌, ◌||◌, arith, length, ◌==◌, lt→ltb, if◌then◌else◌, ◌*◌,
}
use fighting_card.Base.Text.{Text}
use fighting_card.Base.Int.{place, at_place, int_to_size}
use fighting_card.Config.{ClientConfig}
use fighting_card.IoServicePool.{Pool, no_pool, init, join_waits}
use fighting_card.IoServicePool.Turns.{at_turn}
use fighting_card.IoServicePool.Joins.{init-join_waits}
use fighting_card.Start.{
  Opt, no_options, Step, daemon_steps, init_log, init_pool, run_master, join_pool,
}
use fighting_card.Start.Arguments.{all_known, any_debug, last_config, parse-known}
use fighting_card.ClientMain.{
  Exit, Turn, ends, throws, run_loop, leave, start_users, client_main, waits, returned,
}
use fighting_card.ClientMain.Range.{users_from}
use fighting_card.ClientMain.Ends.{count, loop_start, after_turns, run_loop-ends, run_loop-throws}

module _ (load : Text → ClientConfig → Bool × ClientConfig) (log_throws : Bool)
    (resolves : ℕ → Bool) (initial : ClientConfig) (instance_pool : Pool) (fuel : ℕ)
    (opts : List Opt) (c : ClientConfig) where
  abbrev pub before_users : List Step
  before_users =
      daemon_steps (any_debug opts || false) ++ init_log (not (any_debug opts || false)) ∷ []

  -- With good arguments and a file that loads, `main` comes to the users.
  comes_to_users :
      all_known opts ≡ true
      → last_config [] opts ≢ []
      → load (last_config [] opts) initial ≡ (true, c)
      → log_throws ≡ false
      → client_main load log_throws resolves initial instance_pool fuel opts
        ≡ start_users load log_throws resolves initial instance_pool fuel before_users c
  unfolding client_main
  comes_to_users known given loaded logs =
      rw (parse-known opts no_options known, given_path (last_config [] opts) given, loaded, logs)
        refl
    where
      given_path : (t : Text) → t ≢ [] → (length t == 0) ≡ false
      given_path [] h = absurd (h refl)
      given_path (x ∷ t) h = ground arith

  -- The pool that `Init` makes of an empty one.
  abbrev pool : Pool
  pool = init (int_to_size c.thread) instance_pool

  pool_size : c.thread < 2 ^ 31 → instance_pool.io_services ≡ 0 → pool.io_services ≡ c.thread
  unfolding init
  pool_size small empty = rw (lt→ltb c.thread (2 ^ 31) small) (omega (arith, empty))

  pool-join_waits :
      instance_pool ≡ no_pool
      → 0 < c.thread
      → c.thread < 2 ^ 31
      → (k : ℕ) → join_waits (at_turn k pool) ≡ true
  pool-join_waits empty pos small k =
      ap (λ p. join_waits (at_turn k (init (int_to_size c.thread) p))) empty
      ∙ init-join_waits (int_to_size c.thread) k (rw (lt→ltb c.thread (2 ^ 31) small) pos)

  abbrev finished : List Step → Turn → Option Exit
  finished steps done = some (leave (steps ++ init_pool c.thread ∷ []) done)

  loop_exits :
      (done : Turn)
      → run_loop resolves c.users_info fuel (loop_start resolves c.users_info pool) ≡ some done
      → start_users load log_throws resolves initial instance_pool fuel before_users c
        ≡ finished before_users done
  unfolding start_users init
  loop_exits done e = rw e refl

  -- With good arguments, a file that loads and has a thread, an address that can be resolved and a
  -- range that ends
  -- before the greatest `int`, the loop ends within one turn more than there are values; `main` has
  -- started the user of every value, in order, on the services in turn, and waits in `Join` for
  -- the threads of the pool, which have work that nothing takes away.
  pub client_main-users :
      all_known opts ≡ true
      → last_config [] opts ≢ []
      → load (last_config [] opts) initial ≡ (true, c)
      → log_throws ≡ false
      → 0 < c.thread
      → c.thread < 2 ^ 31
      → instance_pool ≡ no_pool
      → c.users_info.uid_from < 2 ^ 32
      → place c.users_info.uid_to < 2 ^ 32 - 1
      → ((uid : ℕ) → resolves uid ≡ true)
      → count c.users_info < fuel
      → client_main load log_throws resolves initial instance_pool fuel opts
        ≡ some (record {
          steps = (before_users ++ init_pool c.thread ∷ []) ++ run_master ∷ join_pool ∷ [];
          users =
              users_from c.users_info c.thread (place c.users_info.uid_from) 0 (count c.users_info);
          status = waits;
        })
  client_main-users known given loaded logs some_thread small empty from_fits not_max resolved
        enough =
      comes_to_users known given loaded logs
      ∙ loop_exits (ends (after_turns resolves c.users_info pool (count c.users_info))) (
          run_loop-ends resolves c.users_info pool fuel
            (rw (pool_size small none_before) some_thread) from_fits not_max resolved enough)
      ∙ ap
          (λ b. some (record {
            steps = (before_users ++ init_pool c.thread ∷ []) ++ run_master ∷ join_pool ∷ [];
            users =
                users_from c.users_info pool.io_services (place c.users_info.uid_from) 0
                  (count c.users_info);
            status = if b then waits else returned 0;
          }))
          (pool-join_waits empty some_thread small (2 * count c.users_info))
      ∙ ap
          (λ size. some (record {
            steps = (before_users ++ init_pool c.thread ∷ []) ++ run_master ∷ join_pool ∷ [];
            users =
                users_from c.users_info size (place c.users_info.uid_from) 0 (count c.users_info);
            status = waits;
          }))
          (pool_size small none_before)
    where
      none_before : instance_pool.io_services ≡ 0
      none_before = ap (λ p. p.io_services) empty

  -- If the address cannot be resolved at the turn of some user, `main` returns 0 all the same, with
  -- the users before this one started and the io_service never run.
  pub client_main-unresolved :
      (n : ℕ)
      → all_known opts ≡ true
      → last_config [] opts ≢ []
      → load (last_config [] opts) initial ≡ (true, c)
      → log_throws ≡ false
      → 0 < c.thread
      → c.thread < 2 ^ 31
      → instance_pool.io_services ≡ 0
      → c.users_info.uid_from < 2 ^ 32
      → n < count c.users_info
      → ((uid : ℕ)
          → place c.users_info.uid_from ≤ place uid
          → place uid < place c.users_info.uid_from + n
          → resolves uid ≡ true)
      → resolves (at_place (place c.users_info.uid_from + n)) ≡ false
      → n < fuel
      → (e : Exit) × (client_main load log_throws resolves initial instance_pool fuel opts ≡ some e)
        × (e.status ≡ returned 0)
        × (e.steps ≡ before_users ++ init_pool c.thread ∷ [])
        × (e.users ≡ users_from c.users_info c.thread (place c.users_info.uid_from) 0 n)
  client_main-unresolved n known given loaded logs some_thread small empty from_fits inside resolved
        fails enough =
      let thrown =
        run_loop-throws resolves c.users_info pool fuel n (rw (pool_size small empty) some_thread)
          from_fits inside resolved fails enough in
      (
        leave (before_users ++ init_pool c.thread ∷ []) (throws thrown.0),
        comes_to_users known given loaded logs ∙ loop_exits (throws thrown.0) thrown.1,
        refl,
        refl,
        thrown.2
            ∙ ap (λ size. users_from c.users_info size (place c.users_info.uid_from) 0 n)
                (pool_size small empty),
      )
