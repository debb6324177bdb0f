-- ===== src/GameProcess/Points.antt =====
-- Where `main` is, and what leaves it there.
use fighting_card.Base.{
  ℕ, ◌≡◌, ◌⊎◌, ap, All, refl, sym, ◌∙◌, Bool, true, false, not, ◌||◌, Option, none, some, List, [],
  ◌∷◌, Bool-cases, inl, inr, Holds, Holds-bind,
}
use fighting_card.Config.{ServerConfig}
use fighting_card.Acceptor.{do_accept}
use fighting_card.Start.{
  Step, init_logic, post_init, accept, run_master, join_logic, join_pool, service_steps,
}
use fighting_card.Threads
use fighting_card.Threads.{LogicIo, returns, take_handler, post, new_logic_io, is_empty}
use fighting_card.Threads.Order.{SameThread}
use fighting_card.GameProcess.{
  World, Event, main_goes_on, main_throws, logic_goes_on, accepts, reads, closes, Job, main_next,
  is_accepting,
}

-- The step that `main` is at.
pub data Point : Type 0 where
  at_pool at_logic at_post at_accept at_master at_join : Point

abbrev pub rest_of : ServerConfig → Point → List Step
rest_of c at_pool = service_steps c
rest_of c at_logic =
    init_logic ∷ post_init ∷ accept c.attr.ip c.attr.port ∷ run_master ∷ join_logic ∷ join_pool ∷ []
rest_of c at_post =
    post_init ∷ accept c.attr.ip c.attr.port ∷ run_master ∷ join_logic ∷ join_pool ∷ []
rest_of c at_accept = accept c.attr.ip c.attr.port ∷ run_master ∷ join_logic ∷ join_pool ∷ []
rest_of c at_master = run_master ∷ join_logic ∷ join_pool ∷ []
rest_of c at_join = join_logic ∷ join_pool ∷ []

abbrev pub is_throw : Event → Bool
is_throw main_goes_on = false
is_throw main_throws = true
is_throw (logic_goes_on now) = false
is_throw (accepts now failed session) = false
is_throw (reads now p b) = false
is_throw (closes p) = false

-- Whether a step of `main` threw, or was to throw.
abbrev pub any_throws : List Event → Bool
any_throws [] = false
any_throws (e ∷ es) = is_throw e || any_throws es

pub none_throws : (es : List Event) → any_throws es ≡ false → All (λ e. is_throw e ≡ false) es
none_throws [] h = tt
none_throws (e ∷ es) h = elim (Bool-cases (is_throw e)) [
  | inl threw ↦ absurd (cc (h, ap (λ b. b || any_throws es) threw))
  | inr quiet ↦ (quiet, none_throws es (sym (ap (λ b. b || any_throws es) quiet) ∙ h))
]

-- Whether the logic thread is there.
abbrev pub has_thread : Point → Bool
has_thread at_pool = false
has_thread at_logic = false
has_thread at_post = true
has_thread at_accept = true
has_thread at_master = true
has_thread at_join = true

-- `main` is at the point, and nothing has stopped the logic thread.
pub record IsAt (c : ServerConfig) (p : Point) (main : List Step) (status : Option ℕ)
    (logic : LogicIo Job) : Type 0 where
  pub main_rest : main ≡ rest_of c p
  pub no_status : status ≡ none
  pub thread : logic.thread ≡ has_thread p
  pub not_stopped : logic.io_service.stopped ≡ false
  pub has_work : logic.io_service.work ≡ true

module _ {P : Type 0} (c : ServerConfig) where
  abbrev pub IsWaiting : World P → Type 0
  IsWaiting w = (p : Point) × IsAt c p w.main w.status w.logic

  abbrev pub IsWaitingOrDone : World P → Type 0
  IsWaitingOrDone w = IsWaiting w ⊎ ((w.status ≡ some 1) × (w.main ≡ []))

module _ {P : Type 0} (c : ServerConfig) (w : World P) where
  module _ (v : IsAt c at_join w.main w.status w.logic) where
    pub blocked : Threads.join w.logic ≡ Threads.blocks
    unfolding Threads.join returns
    blocked = elim (Bool-cases (is_empty w.logic.io_service.handlers)) [
      | inl e ↦ rw (v.thread, v.not_stopped, v.has_work, e) refl
      | inr e ↦ rw (v.thread, v.not_stopped, v.has_work, e) refl
    ]

  -- The same point with other steps ahead.
  pub moved :
      (p q : Point)
      → has_thread p ≡ has_thread q
      → IsAt c p w.main w.status w.logic
      → IsAt c q (rest_of c q) w.status w.logic
  moved p q e v = record {
    main_rest = refl;
    no_status = v.no_status;
    thread = v.thread ∙ e;
    not_stopped = v.not_stopped;
    has_work = v.has_work;
  }

  pub main-IsWaiting :
      (p : Point)
      → IsAt c p w.main w.status w.logic
      → Holds (main_next w (rest_of c p)) (IsWaiting c)
  unfolding Threads.init Threads.run_master post
  main-IsWaiting at_pool v = (at_logic, moved at_pool at_logic refl v)
  main-IsWaiting at_logic v = rw v.thread (
    at_post,
    record {
      main_rest = refl;
      no_status = v.no_status;
      thread = refl;
      not_stopped = v.not_stopped;
      has_work = v.has_work;
    },
  )
  main-IsWaiting at_post v = (
    at_accept,
    record {
      main_rest = refl;
      no_status = v.no_status;
      thread = v.thread;
      not_stopped = v.not_stopped;
      has_work = v.has_work;
    },
  )
  main-IsWaiting at_accept v =
      Holds-bind (do_accept w.gate)
        (λ gate. some (record w { main = rest_of c at_master; gate = gate })) (IsWaiting c)
        (λ gate eq. (at_master, moved at_accept at_master refl v))
  main-IsWaiting at_master v =
      elim (Bool-cases (w.master.stopped || not (is_accepting w.gate.accepting))) [
        | inl e ↦ rw e (at_join, moved at_master at_join refl v)
        | inr e ↦ rw e (at_master, v)
      ]
  main-IsWaiting at_join v = rw (blocked v) (at_join, v)

  pub posted-IsAt :
      (p : Point) (ts : List Job)
      → IsAt c p w.main w.status w.logic
      → IsAt c p w.main w.status (post w.logic ts)
  unfolding post
  posted-IsAt p ts v = record {
    main_rest = v.main_rest;
    no_status = v.no_status;
    thread = v.thread;
    not_stopped = v.not_stopped;
    has_work = v.has_work;
  }

  pub taken-IsAt :
      (p : Point) (r : LogicIo Job × Job)
      → SameThread w.logic r
      → IsAt c p w.main w.status w.logic
      → IsAt c p w.main w.status r.0
  taken-IsAt p r same v = record {
    main_rest = v.main_rest;
    no_status = v.no_status;
    thread = same.0 ∙ v.thread;
    not_stopped = same.1 ∙ v.not_stopped;
    has_work = same.2 ∙ v.has_work;
  }
