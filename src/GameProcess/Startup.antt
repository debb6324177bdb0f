-- ===== src/GameProcess/Startup.antt =====
-- The order of the start: the table of handlers is filled before the logic thread runs a task.
use fighting_card.Base.{
  ℕ, ◌≡◌, ◌⊎◌, refl, sym, ◌∙◌, ap, Bool, true, false, not, ◌&&◌, Option, none, some, List, [], ◌∷◌,
  ◌++◌, ◌>>=◌, Bool-cases, inl, inr, if◌then◌else◌, Holds,
}
use mathlib.Core.Path.{subst}
use fighting_card.Base.Text.{Text}
use fighting_card.Config.{ServerConfig}
use fighting_card.Dispatch.{no_handlers}
use fighting_card.Server
use fighting_card.Server.{LoginReq, UserSession, Logic, set_session, new_session}
use fighting_card.Server.Session.Requests.{ready, init_processor-ready}
use fighting_card.Threads.{LogicIo, post, take_handler, next_handler, new_logic_io}
use fighting_card.GameProcess.{
  init_timers, World, Event, Job, start_up, does, jobs, call_handler, is_accepting, is_session,
  started, run, step, after_accept,
}
use fighting_card.GameProcess.Kept.{tables, step-Holds, run_keeps}
use fighting_card.GameProcess.Starting.{
  IsUnposted, IsEarly, IsUp, IsStarting, kept-main, kept-thrown,
}
use fighting_card.GameProcess.Points.{at_pool}

take_handler-head :
    {T : Type 0} (l : LogicIo T) (ts : List T)
    → l.io_service.handlers ≡ ts
    → (take_handler l ≡ none) ⊎ (take_handler l ≡ next_handler l ts)
unfolding take_handler
take_handler-head l ts e = elim (Bool-cases (l.thread && not l.io_service.stopped)) [
  | inl up ↦ inr (rw up (ap (next_handler l) e))
  | inr down ↦ inl (rw down refl)
]

module _ {P : Type 0} (create : Text → Option P) (parse : List ℕ → P → P)
    (login_of : P → Option LoginReq) (ping_of : P → Bool) (c : ServerConfig) where
  start_up-IsUp :
      (now : ℕ) (w : World P) (logic : LogicIo Job)
      → Holds
          (call_handler create parse login_of ping_of now w (some (logic, start_up)))
          (IsStarting login_of ping_of c)
  start_up-IsUp now w logic =
      subst
        (λ o.
          Holds
            (o >>= λ processor.
              some (record w { logic = logic; processor = processor; timers = init_timers now }))
            (IsStarting login_of ping_of c))
        (sym (init_processor-ready login_of ping_of))
        (inr (record { registered = refl; timed = (now, refl) }))

  up-call :
      (now : ℕ) (w : World P) (r : Option (LogicIo Job × Job))
      → IsUp login_of ping_of w
      → Holds (call_handler create parse login_of ping_of now w r) (IsStarting login_of ping_of c)
  up-call now w none v = inr v
  up-call now w (some (logic, start_up)) v = start_up-IsUp now w logic
  up-call now w (some (logic, does t)) v =
      inr (record { registered = v.registered; timed = v.timed })

  -- The first handler that is called is the start, and without one nothing happens.
  early-call :
      (now : ℕ) (w : World P) (hs : List Job)
      → w.logic.io_service.handlers ≡ hs
      → (hs ≡ []) ⊎ ((ts : List Job) × (hs ≡ start_up ∷ ts))
      → IsEarly c w
      → Holds
          (call_handler create parse login_of ping_of now w (take_handler w.logic))
          (IsStarting login_of ping_of c)
  early-call now w hs e kind v = elim (take_handler-head w.logic hs e) [
    | inl t ↦ called t (inl v)
    | inr t ↦ elim kind [
      | inl n ↦ called (t ∙ ap (next_handler w.logic) n) (inl v)
      | inr (ts, n) ↦ called (t ∙ ap (next_handler w.logic) n) (
          start_up-IsUp now w
            (record w.logic { io_service = record w.logic.io_service { handlers = ts } }))
    ]
  ]
    where
      called :
          {o : Option (LogicIo Job × Job)}
          → take_handler w.logic ≡ o
          → Holds
              (call_handler create parse login_of ping_of now w o)
              (IsStarting login_of ping_of c)
          → Holds
              (call_handler create parse login_of ping_of now w (take_handler w.logic))
              (IsStarting login_of ping_of c)
      called = λ eq h.
          subst
            (λ r.
              Holds (call_handler create parse login_of ping_of now w r)
                (IsStarting login_of ping_of c))
            (sym eq) h

  kept-call :
      (now : ℕ) (w : World P)
      → IsStarting login_of ping_of c w
      → Holds
          (call_handler create parse login_of ping_of now w (take_handler w.logic))
          (IsStarting login_of ping_of c)
  kept-call now w (inr v) = up-call now w (take_handler w.logic) v
  kept-call now w (inl v) = elim v.ahead [
    | inl u ↦ early-call now w [] u.no_handler (inl refl) v
    | inr (ts, e) ↦ early-call now w (start_up ∷ ts) e (inr (ts, refl)) v
  ]

  -- What is posted comes behind the start, if that has been posted.
  kept-post :
      (w : World P) (u : World P) (ts : List Job)
      → u.processor ≡ w.processor
      → u.timers ≡ w.timers
      → tables u.server ≡ tables w.server
      → u.logic.io_service.handlers ≡ w.logic.io_service.handlers ++ ts
      → (IsUnposted c w → ⊥)
      → IsStarting login_of ping_of c w
      → IsStarting login_of ping_of c u
  kept-post w u ts e f g h posted (inr v) =
      inr (record { registered = e ∙ v.registered; timed = (v.timed.0, f ∙ v.timed.1) })
  kept-post w u ts e f g h posted (inl v) = elim v.ahead [
    | inl x ↦ absurd (posted x)
    | inr (us, first) ↦ inl (record {
      nothing_registered = e ∙ v.nothing_registered;
      nobody = g ∙ v.nobody;
      ahead = inr (us ++ ts, h ∙ ap (λ hs. hs ++ ts) first);
    })
  ]

  accepted-tables :
      (failed : Bool) (session now : ℕ) (s : Logic)
      → tables (if failed then s else set_session session (new_session now) s) ≡ tables s
  accepted-tables true session now s = refl
  accepted-tables false session now s = refl

  step-IsStarting :
      (w : World P) (e : Event)
      → IsStarting login_of ping_of c w
      → Holds (step create parse login_of ping_of w e) (IsStarting login_of ping_of c)
  unfolding post
  step-IsStarting w e v =
      step-Holds create parse login_of ping_of (IsStarting login_of ping_of c) w e v
        (kept-main login_of ping_of c w v)
        (λ s rest threw ahead may. kept-thrown login_of ping_of c w v)
        (λ now called. kept-call now w v)
        (λ now failed session gate pending done.
          kept-post w (after_accept now failed session w gate) (jobs gate.posted) refl refl
            (accepted-tables failed session now w.server) refl
            (λ u. cc (pending, ap is_accepting u.no_accept)) v)
        (λ p ts s known unchanged.
          kept-post w (record w { logic = post w.logic ts; server = s }) ts refl refl unchanged refl
            (λ u. cc (known, ap (is_session p) u.no_session)) v)

  -- Whatever the order in which the threads go on: as long as the handlers are not all registered
  -- none is, and no name is logged in and no session has an id; afterwards all are, and the timer
  -- of one second runs.
  pub start_comes_first :
      (sessions : ℕ → UserSession) (exists : ℕ → Bool) (es : List Event) (w : World P)
      → run create parse login_of ping_of (started c sessions exists) es ≡ some w
      → ((w.processor ≡ no_handlers) × (tables w.server ≡ ([], [])))
        ⊎ ((w.processor ≡ ready login_of ping_of) × ((since : ℕ) × (w.timers ≡ init_timers since)))
  start_comes_first sessions exists es w ran =
      elim (run_keeps create parse login_of ping_of (IsStarting login_of ping_of c) step-IsStarting
        (started c sessions exists) w es at_start ran) [
          | inl v ↦ inl (v.nothing_registered, v.nobody)
          | inr v ↦ inr (v.registered, v.timed)
        ]
    where
      at_start : IsStarting login_of ping_of c (started c sessions exists)
      at_start =
          unfold started in
          unfold new_logic_io in
          unfold Server.init in
          inl (record {
            nothing_registered = refl;
            nobody = refl;
            ahead = inl (record {
              point = inr (at_pool, tt, refl);
              no_handler = refl;
              no_session = refl;
              no_accept = refl;
            });
          })
