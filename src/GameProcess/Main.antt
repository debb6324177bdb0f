-- ===== src/GameProcess/Main.antt =====
-- What the steps of `main` change of what the logic thread works with.
use fighting_card.Base.{
  ◌≡◌, refl, sym, ◌∙◌, ap, Bool, true, false, none, some, List, [], ◌∷◌, ◌++◌, inl, inr,
  if◌then◌else◌, Holds, Holds-bind, Holds-if, Holds-then, append-nil,
}
use mathlib.Core.Path.{subst}
use fighting_card.Base.Int.{int_to_size}
use fighting_card.Acceptor.{do_accept}
use fighting_card.Start.{
  Step, create_daemon, init_log, init_pool, init_logic, post_init, accept, run_master, join_logic,
  join_pool,
}
use fighting_card.Threads
use fighting_card.Threads.{LogicIo, MasterIo, post, take_handler, next_handler, new_logic_io}
use fighting_card.IoServicePool
use fighting_card.Threads.Order.{join-cases}
use fighting_card.GameProcess.{
  World, Job, start_up, main_next, main_step, is_accepting, mastered, joining,
}
use fighting_card.GameProcess.Kept.{tables}

module _ {P : Type 0} where
  -- `main` changes neither the table, nor the timers, nor the tables of the logic thread, and at
  -- most appends to the handlers that wait.
  pub record Same (w v : World P) : Type 0 where
    pub same_processor : v.processor ≡ w.processor
    pub same_timers : v.timers ≡ w.timers
    pub same_tables : tables v.server ≡ tables w.server
    pub appended :
        (ts : List Job) × (v.logic.io_service.handlers ≡ w.logic.io_service.handlers ++ ts)

  same :
      (w v : World P) (ts : List Job)
      → v.processor ≡ w.processor
      → v.timers ≡ w.timers
      → tables v.server ≡ tables w.server
      → v.logic.io_service.handlers ≡ w.logic.io_service.handlers ++ ts
      → Same w v
  same w v ts e f g h = record {
    same_processor = e;
    same_timers = f;
    same_tables = g;
    appended = (ts, h);
  }

  unchanged : (w : World P) → w.logic.io_service.handlers ≡ w.logic.io_service.handlers ++ []
  unchanged w = sym (append-nil w.logic.io_service.handlers)

  joining-Same : (rest : List Step) (w : World P) → Same w (joining rest w (Threads.join w.logic))
  joining-Same rest w = elim (join-cases w.logic) [
    | inl e ↦
        subst (λ j. Same w (joining rest w j)) (sym e)
          (same w (joining rest w Threads.throws) [] refl refl refl (unchanged w))
    | inr (inl e) ↦
        subst (λ j. Same w (joining rest w j)) (sym e) (same w w [] refl refl refl (unchanged w))
    | inr (inr e) ↦
        subst (λ j. Same w (joining rest w j)) (sym e)
          (same w (joining rest w (Threads.joined (record w.logic { thread = false }))) [] refl refl
            refl (unchanged w))
  ]

  mastered-Same :
      (rest : List Step) (w : World P) (m : MasterIo) (b : Bool) → Same w (mastered rest w (m, b))
  mastered-Same rest w m false = same w (mastered rest w (m, false)) [] refl refl refl (unchanged w)
  mastered-Same rest w m true = same w (mastered rest w (m, true)) [] refl refl refl (unchanged w)

  finished-Same :
      (rest : List Step) (w : World P) (b : Bool)
      → Same w (if b then w else record w { main = rest; status = some 0 })
  finished-Same rest w true = same w w [] refl refl refl (unchanged w)
  finished-Same rest w false =
      same w (record w { main = rest; status = some 0 }) [] refl refl refl (unchanged w)

  main_step-Same : (rest : List Step) (w : World P) (s : Step) → Holds (main_step rest w s) (Same w)
  unfolding post Threads.init
  main_step-Same rest w create_daemon =
      same w (record w { main = rest }) [] refl refl refl (unchanged w)
  main_step-Same rest w (init_log console) =
      same w (record w { main = rest }) [] refl refl refl (unchanged w)
  main_step-Same rest w (init_pool n) =
      same w
        (record w {
          main = rest;
          gate = record w.gate { pool = IoServicePool.init (int_to_size n) w.gate.pool };
        })
        [] refl refl refl (unchanged w)
  main_step-Same rest w init_logic =
      Holds-then (Threads.init w.logic) (λ logic. some (record w { main = rest; logic = logic }))
        (λ logic. logic.io_service ≡ w.logic.io_service) (Same w)
        (Holds-if w.logic.thread none (some (record w.logic { thread = true }))
          (λ logic. logic.io_service ≡ w.logic.io_service) (λ e. tt) (λ e. refl))
        (λ logic e.
          same w (record w { main = rest; logic = logic }) [] refl refl refl
            (ap (λ i. i.handlers) e ∙ unchanged w))
  main_step-Same rest w post_init =
      same w (record w { main = rest; logic = post w.logic (start_up ∷ []) }) (start_up ∷ []) refl
        refl refl refl
  main_step-Same rest w (accept ip port) =
      Holds-bind (do_accept w.gate) (λ gate. some (record w { main = rest; gate = gate })) (Same w)
        (λ gate e. same w (record w { main = rest; gate = gate }) [] refl refl refl (unchanged w))
  main_step-Same rest w run_master =
      mastered-Same rest w (Threads.run_master (is_accepting w.gate.accepting) w.master).0
        (Threads.run_master (is_accepting w.gate.accepting) w.master).1
  main_step-Same rest w join_logic = joining-Same rest w
  main_step-Same rest w join_pool = finished-Same rest w (IoServicePool.join_waits w.gate.pool)

  pub main_next-Same : (w : World P) (ss : List Step) → Holds (main_next w ss) (Same w)
  main_next-Same w [] = same w w [] refl refl refl (unchanged w)
  main_next-Same w (s ∷ rest) = main_step-Same rest w s
