-- ===== src/GameProcess/Waits.antt =====
-- That `main` comes as far as its joins at most.
use fighting_card.Base.{
  ℕ, ◌≡◌, ◌⊎◌, ap, Holds-weaken, refl, sym, Bool, true, false, Option, none, some, List, Bool-cases,
  inl, inr, Holds, Holds-bind,
}
use mathlib.Core.Path.{subst}
use fighting_card.Base.Text.{Text}
use fighting_card.Config.{ServerConfig}
use fighting_card.Server.{LoginReq, UserSession}
use fighting_card.Server.Session.{init_processor}
use fighting_card.Threads.{LogicIo, take_handler, new_logic_io}
use fighting_card.Threads.Order.{SameThread, take-SameThread}
use fighting_card.GameProcess.{
  init_timers, World, Event, is_over, Job, start_up, does, jobs, main_next, call_handler, step, run,
  started,
}
use fighting_card.GameProcess.Kept.{step-Holds, over-Holds, allowed_keeps, run_keeps}
use fighting_card.GameProcess.Points.{
  Point, at_pool, rest_of, is_throw, any_throws, none_throws, IsAt, IsWaiting, IsWaitingOrDone,
  main-IsWaiting, posted-IsAt, taken-IsAt,
}

module _ {P : Type 0} (create : Text → Option P) (parse : List ℕ → P → P)
    (login_of : P → Option LoginReq) (ping_of : P → Bool) (c : ServerConfig) where
  call-IsWaiting :
      (w : World P) (now : ℕ) (r : Option (LogicIo Job × Job))
      → Holds r (SameThread w.logic)
      → IsWaiting c w
      → Holds (call_handler create parse login_of ping_of now w r) (IsWaiting c)
  call-IsWaiting w now none same (p, v) = (p, v)
  call-IsWaiting w now (some (logic, start_up)) same (p, v) =
      Holds-bind (init_processor login_of ping_of)
        (λ processor.
          some (record w { logic = logic; processor = processor; timers = init_timers now }))
        (IsWaiting c) (λ processor eq. (p, taken-IsAt c w p (logic, start_up) same v))
  call-IsWaiting w now (some (logic, does t)) same (p, v) =
      (p, taken-IsAt c w p (logic, does t) same v)

  IsWaiting-main :
      (w : World P) (p : Point)
      → IsAt c p w.main w.status w.logic
      → Holds (main_next w w.main) (IsWaiting c)
  IsWaiting-main w p v =
      subst (λ s. Holds (main_next w s) (IsWaiting c)) (sym v.main_rest) (main-IsWaiting c w p v)

  -- Without an exception `main` goes on or waits.
  step-IsWaiting :
      (w : World P) (e : Event)
      → is_throw e ≡ false
      → IsWaiting c w
      → Holds (step create parse login_of ping_of w e) (IsWaiting c)
  step-IsWaiting w e quiet (p, v) =
      step-Holds create parse login_of ping_of (IsWaiting c) w e (p, v) (IsWaiting-main w p v)
        (λ s rest threw. absurd (cc (quiet, ap is_throw threw)))
        (λ now called. call-IsWaiting w now (take_handler w.logic) (take-SameThread w.logic) (p, v))
        (λ now failed session gate pending done. (p, posted-IsAt c w p (jobs gate.posted) v))
        (λ q ts s known same. (p, posted-IsAt c w p ts v))

  step-IsWaitingOrDone :
      (w : World P) (e : Event)
      → IsWaitingOrDone c w
      → Holds (step create parse login_of ping_of w e) (IsWaitingOrDone c)
  step-IsWaitingOrDone w e (inr d) =
      over-Holds create parse login_of ping_of (IsWaitingOrDone c) w e (ap is_over d.0) (inr d)
  step-IsWaitingOrDone w e (inl (p, v)) =
      step-Holds create parse login_of ping_of (IsWaitingOrDone c) w e (inl (p, v))
        (Holds-weaken (main_next w w.main) (IsWaiting c) (IsWaitingOrDone c) (IsWaiting-main w p v)
          (λ u h. inl h))
        (λ s rest threw ahead may. inr (refl, refl))
        (λ now called.
          Holds-weaken (call_handler create parse login_of ping_of now w (take_handler w.logic))
            (IsWaiting c) (IsWaitingOrDone c)
            (call-IsWaiting w now (take_handler w.logic) (take-SameThread w.logic) (p, v))
            (λ u h. inl h))
        (λ now failed session gate pending done. inl (p, posted-IsAt c w p (jobs gate.posted) v))
        (λ q ts s known same. inl (p, posted-IsAt c w p ts v))

  -- Whatever happens from the start of the second `try` block on, `main` returns only by an
  -- exception, with 1. Without one it does not return and does not come past its first join:
  -- nothing stops the logic thread, whose `empty_work_` keeps it up.
  pub main_never_returns :
      (sessions : ℕ → UserSession) (exists : ℕ → Bool) (es : List Event) (w : World P)
      → run create parse login_of ping_of (started c sessions exists) es ≡ some w
      → ((w.status ≡ none) × ((p : Point) × (w.main ≡ rest_of c p)))
        ⊎ ((w.status ≡ some 1) × (any_throws es ≡ true))
  unfolding started new_logic_io
  main_never_returns sessions exists es w ran = elim (Bool-cases (any_throws es)) [
    | inr quiet ↦
        let reached =
          allowed_keeps create parse login_of ping_of (IsWaiting c) (λ e. is_throw e ≡ false)
            step-IsWaiting (started c sessions exists) w es (none_throws es quiet)
            (at_pool, at_start) ran in
        inl (reached.1.no_status, (reached.0, reached.1.main_rest))
    | inl threw ↦
        elim (run_keeps create parse login_of ping_of (IsWaitingOrDone c) step-IsWaitingOrDone
          (started c sessions exists) w es (inl (at_pool, at_start)) ran) [
            | inl (p, v) ↦ inl (v.no_status, (p, v.main_rest))
            | inr d ↦ inr (d.0, threw)
          ]
  ]
    where
      at_start :
          IsAt c at_pool
            (started {P = P} c sessions exists).main
            (started {P = P} c sessions exists).status
            (started {P = P} c sessions exists).logic
      at_start = record {
        main_rest = refl;
        no_status = refl;
        thread = refl;
        not_stopped = refl;
        has_work = refl;
      }
