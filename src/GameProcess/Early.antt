-- ===== src/GameProcess/Early.antt =====
-- A frame that comes before the logic thread has filled the table of handlers.
use fighting_card.Base.{
  ℕ, ◌+◌, ◌%◌, ◌<◌, ◌≡◌, refl, sym, ap, ◌∙◌, ◌||◌, ◌>>=◌, if◌then◌else◌, All, Bool-cases, inl, inr,
  Holds, Holds-weaken, Bool, true, false, Option, none, some, List, [], ◌∷◌, arith, suc, ◌^◌,
}
use fighting_card.Base.Text.{Text}
use fighting_card.Base.Int.{int_to_size}
use fighting_card.Config.{ServerConfig}
use fighting_card.UserBuffer.{UserBuffer, decode}
use fighting_card.Dispatch.{no_handlers, dispatch}
use fighting_card.IoServicePool
use fighting_card.IoServicePool.{get_io_service, no_pool}
use fighting_card.IoServicePool.Turns.{at_turn, get_io_service-next}
use fighting_card.Acceptor.{do_accept, on_accept}
use fighting_card.Server
use fighting_card.Server.{LoginReq, UserSession, adds, new_session, set_session}
use fighting_card.Server.Session.{on_read_body}
use fighting_card.Threads
use fighting_card.Threads.{post, take_handler, new_logic_io, new_master_io}
use fighting_card.GameProcess.{
  World, Event, main_goes_on, main_throws, logic_goes_on, accepts, reads, closes, is_over,
  is_session, react, after_read, main_next, start_up, does, jobs, step, run, started,
}
use fighting_card.GameProcess.Kept.{step-Holds, allowed_keeps}
use fighting_card.GameProcess.Main.{Same, main_next-Same}
use fighting_card.GameProcess.Points.{rest_of, at_master}

abbrev pub is_logic : Event → Bool
is_logic main_goes_on = false
is_logic main_throws = false
is_logic (logic_goes_on now) = true
is_logic (accepts now failed session) = false
is_logic (reads now p b) = false
is_logic (closes p) = false

-- Whether the logic thread was to call a handler.
abbrev pub any_logic : List Event → Bool
any_logic [] = false
any_logic (e ∷ es) = is_logic e || any_logic es

none_logic : (es : List Event) → any_logic es ≡ false → All (λ e. is_logic e ≡ false) es
none_logic [] h = tt
none_logic (e ∷ es) h = elim (Bool-cases (is_logic e)) [
  | inl calls ↦ absurd (cc (h, ap (λ b. b || any_logic es) calls))
  | inr other ↦ (other, none_logic es (sym (ap (λ b. b || any_logic es) other) ∙ h))
]

-- `main` goes on until it is in `Run`, and a connection is accepted.
abbrev pub one_accepted : ℕ → ℕ → List Event
one_accepted now p =
    main_goes_on
    ∷ main_goes_on
    ∷ main_goes_on
    ∷ main_goes_on
    ∷ main_goes_on
    ∷ accepts now false p
    ∷ []

module _ {P : Type 0} (c : ServerConfig) (sessions : ℕ → UserSession) (exists : ℕ → Bool)
    (now p : ℕ) where
  -- The state then.
  abbrev pub reading : World P
  reading = record {
    main = rest_of c at_master;
    status = none;
    logic = record {
      io_service = record {
        handlers = start_up ∷ does (adds p) ∷ [];
        work = true;
        stopped = false;
      };
      thread = true;
    };
    master = record { running = true; stopped = false };
    gate = record {
      pool = record (IoServicePool.init (int_to_size c.attr.thread) no_pool) {
        next_io_service = 2;
      };
      accepting = some (1 % int_to_size c.attr.thread);
      sessions = (p, 0 % int_to_size c.attr.thread) ∷ [];
      posted = [];
    };
    processor = no_handlers;
    timers = [];
    server = set_session p (new_session now) (Server.init sessions exists);
  }

module _ {P : Type 0} (create : Text → Option P) (parse : List ℕ → P → P)
    (login_of : P → Option LoginReq) (ping_of : P → Bool) (c : ServerConfig)
    (sessions : ℕ → UserSession) (exists : ℕ → Bool) (now p : ℕ) where
  -- The services for the accept of this connection and for the next.
  given :
      (k : ℕ)
      → 0 < int_to_size c.attr.thread
      → suc k < 2 ^ 64
      → get_io_service (at_turn k (IoServicePool.init (int_to_size c.attr.thread) no_pool))
        ≡ some (
          at_turn (suc k) (IoServicePool.init (int_to_size c.attr.thread) no_pool),
          k % int_to_size c.attr.thread,
        )
  unfolding IoServicePool.init
  given k pos small =
      get_io_service-next k (IoServicePool.init (int_to_size c.attr.thread) no_pool)
        (omega (arith, pos)) small
      ∙ ap
          (λ size.
            some
              (at_turn (suc k) (IoServicePool.init (int_to_size c.attr.thread) no_pool), k % size))
          size
    where
      size : 0 + int_to_size c.attr.thread ≡ int_to_size c.attr.thread
      size = omega arith

  pub reached :
      0 < int_to_size c.attr.thread
      → run create parse login_of ping_of (started c sessions exists) (one_accepted now p)
        ≡ some (reading c sessions exists now p)
  unfolding run step started post new_logic_io new_master_io Threads.init Threads.run_master
      do_accept on_accept IoServicePool.init jobs
  reached pos = rw (given 0 pos (omega arith), given 1 pos (omega arith)) refl

module _ {P : Type 0} (create : Text → Option P) (parse : List ℕ → P → P)
    (login_of : P → Option LoginReq) (ping_of : P → Bool) (c : ServerConfig)
    (sessions : ℕ → UserSession) (exists : ℕ → Bool) where
  abbrev IsUnregistered : World P → Type 0
  IsUnregistered w = w.processor ≡ no_handlers

  -- Only the logic thread registers handlers.
  step-IsUnregistered :
      (w : World P) (e : Event)
      → is_logic e ≡ false
      → IsUnregistered w
      → Holds (step create parse login_of ping_of w e) IsUnregistered
  step-IsUnregistered w e not_logic h =
      step-Holds create parse login_of ping_of IsUnregistered w e h
        (Holds-weaken (main_next w w.main) (Same w) IsUnregistered (main_next-Same w w.main)
          (λ u same. same.same_processor ∙ h))
        (λ s rest threw ahead may. h) (λ now called. absurd (cc (not_logic, ap is_logic called)))
        (λ now failed session gate pending done. h) (λ p ts s known same. h)

  -- `Dispatch` with the table as it is before `Init`.
  unregistered-aborts :
      (now p : ℕ) (u : UserSession) (b got : UserBuffer)
      → decode b ≡ some (got, true)
      → on_read_body create parse no_handlers now p b u ≡ none
  unfolding on_read_body dispatch no_handlers
  unregistered-aborts now p u b got accepted = rw accepted refl

  -- In every history without a handler of the logic thread, the first frame of a session that
  -- `Decode` accepts makes the assertion of `Dispatch` fail, unless `main` has returned.
  pub early_frame_aborts :
      (es : List Event) (w : World P) (p read_at : ℕ) (b got : UserBuffer)
      → run create parse login_of ping_of (started c sessions exists) es ≡ some w
      → any_logic es ≡ false
      → w.status ≡ none
      → is_session p w.gate.sessions ≡ true
      → decode b ≡ some (got, true)
      → step create parse login_of ping_of w (reads read_at p b) ≡ none
  unfolding step
  early_frame_aborts es w p read_at b got ran quiet on known accepted =
      ap
        (λ st.
          if is_over st then some w else react create parse login_of ping_of w (reads read_at p b))
        on
      ∙ ap
          (λ k.
            if k
            then (on_read_body create parse w.processor read_at p b (w.server.sessions p) >>= λ r.
                some (after_read p w r))
            else some w)
          known
      ∙ ap
          (λ t. on_read_body create parse t read_at p b (w.server.sessions p) >>= λ r.
            some (after_read p w r))
          unregistered
      ∙ ap (λ r. r >>= λ r. some (after_read p w r))
          (unregistered-aborts read_at p (w.server.sessions p) b got accepted)
    where
      unregistered : w.processor ≡ no_handlers
      unregistered =
          allowed_keeps create parse login_of ping_of IsUnregistered (λ e. is_logic e ≡ false)
            step-IsUnregistered (started c sessions exists) w es (none_logic es quiet)
            (unfold started in refl) ran
