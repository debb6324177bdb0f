-- ===== src/GameProcess.antt =====
-- server/main.cpp and server/timer_manager.cpp: the threads of the game server while it runs. `main`
-- goes through the steps of its second `try` block; the thread of `LogicIo` calls what is posted
-- to it; the master thread accepts, and the threads of the pool read frames. An event is one
-- handler, or one step of `main`, which may throw; `none` is an assertion that fails or another
-- fault.
pub mod Kept
pub mod Refused
pub mod Main
pub mod Starting
pub mod Startup
pub mod Early
pub mod Points
pub mod Waits
pub mod Tests
use fighting_card.Base.{
  ℕ, Bool, true, false, Option, none, some, List, [], ◌∷◌, ◌++◌, ◌>>=◌, if◌then◌else◌, ◌==◌, ◌||◌,
}
use fighting_card.Base.Text.{Text}
use fighting_card.Base.Int.{int_to_size}
use fighting_card.UserBuffer.{UserBuffer}
use fighting_card.Dispatch.{Processor, no_handlers}
use fighting_card.Timer
use fighting_card.Timer.{Item, add}
use fighting_card.IoServicePool
use fighting_card.IoServicePool.{Pool, no_pool}
use fighting_card.Acceptor.{GameServer, do_accept, on_accept}
use fighting_card.Server
use fighting_card.Server.{Logic, LoginReq, UserSession, new_session, set_session}
use fighting_card.Server.Session.{Request, init_processor, on_read_body}
use fighting_card.Config.{ServerConfig}
use fighting_card.Start.{
  Step, create_daemon, init_log, init_pool, init_logic, post_init, accept, run_master, join_logic,
  join_pool, service_steps,
}
use fighting_card.Threads
use fighting_card.Threads.{LogicIo, MasterIo, new_logic_io, new_master_io, post, take_handler}

-- The member function that the server's timer calls; it only logs.
pub data TimerFunc : Type 0 where
  timer_1_sec : TimerFunc

-- `TimerManager::Init` at the time `now`: a new manager, with one timer that runs.
unfoldable pub init_timers : ℕ → List (Item TimerFunc)
init_timers now = Timer.run now (add 1 timer_1_sec [])

-- What is posted to the logic thread: the function of `main`, or a task of the sessions.
pub data Job : Type 0 where
  start_up : Job
  does : Server.Task → Job

pub record World (P : Type 0) : Type 0 where
  pub main : List Step
  pub status : Option ℕ
  pub logic : LogicIo Job
  pub master : MasterIo
  pub gate : GameServer
  pub processor : Processor ℕ P Request Server.Task
  pub timers : List (Item TimerFunc)
  pub server : Logic

-- The next step of `main` or its exception, a handler of the logic thread at a time, the end of the accept that is
-- under way with whether it failed and the address of the session, a frame that a session has
-- read, and the closing of a session.
pub data Event : Type 0 where
  main_goes_on main_throws : Event
  logic_goes_on : ℕ → Event
  accepts : ℕ → Bool → ℕ → Event
  reads : ℕ → ℕ → UserBuffer → Event
  closes : ℕ → Event

unfoldable pub jobs : List Server.Task → List Job
jobs [] = []
jobs (t ∷ ts) = does t ∷ jobs ts

abbrev pub is_accepting : Option ℕ → Bool
is_accepting none = false
is_accepting (some service) = true

abbrev pub is_session : ℕ → List (ℕ × ℕ) → Bool
is_session p [] = false
is_session p (s ∷ ss) = (s.0 == p) || is_session p ss

-- The steps of the `try` block: threads may not be made, memory may run out, the address may not
-- resolve or be taken, and a handler of an accept may throw through `Run`.
abbrev pub may_throw : Step → Bool
may_throw create_daemon = false
may_throw (init_log console) = false
may_throw (init_pool n) = true
may_throw init_logic = true
may_throw post_init = true
may_throw (accept ip port) = true
may_throw run_master = true
may_throw join_logic = false
may_throw join_pool = false

abbrev pub is_over : Option ℕ → Bool
is_over none = false
is_over (some status) = true

module _ {P : Type 0} where
  -- The state when the second `try` block begins.
  unfoldable pub started : ServerConfig → (ℕ → UserSession) → (ℕ → Bool) → World P
  started c sessions exists = record {
    main = service_steps c;
    status = none;
    logic = new_logic_io;
    master = new_master_io;
    gate = record { pool = no_pool; accepting = none; sessions = []; posted = [] };
    processor = no_handlers;
    timers = [];
    server = Server.init sessions exists;
  }

  -- An exception ends `main` with 1.
  abbrev pub joining : List Step → World P → Threads.Joining Job → World P
  joining rest w Threads.throws = record w { main = []; status = some 1 }
  joining rest w Threads.blocks = w
  joining rest w (Threads.joined logic) = record w { main = rest; logic = logic }

  abbrev pub mastered : List Step → World P → MasterIo × Bool → World P
  mastered rest w (master, false) = record w { master = master }
  mastered rest w (master, true) = record w { main = rest; master = master }

  -- One step of `main`, which is followed by the steps `rest`. `run_master` and both joins leave
  -- the state alone until they return. The number of threads is an `int`, which is converted.
  abbrev pub main_step : List Step → World P → Step → Option (World P)
  main_step rest w create_daemon = some (record w { main = rest })
  main_step rest w (init_log console) = some (record w { main = rest })
  main_step rest w (init_pool n) = some (record w {
    main = rest;
    gate = record w.gate { pool = IoServicePool.init (int_to_size n) w.gate.pool };
  })
  main_step rest w init_logic = do
    logic ← Threads.init w.logic
    some (record w { main = rest; logic = logic })
  main_step rest w post_init = some (record w { main = rest; logic = post w.logic (start_up ∷ []) })
  main_step rest w (accept ip port) = do
    gate ← do_accept w.gate
    some (record w { main = rest; gate = gate })
  main_step rest w run_master =
      some (mastered rest w (Threads.run_master (is_accepting w.gate.accepting) w.master))
  main_step rest w join_logic = some (joining rest w (Threads.join w.logic))
  main_step rest w join_pool = some (
      if IoServicePool.join_waits w.gate.pool then w else record w { main = rest; status = some 0 })

  -- The `catch`, if a step of the `try` block has thrown that can; the joins are in `joining`.
  abbrev pub main_catch : World P → List Step → World P
  main_catch w [] = w
  main_catch w (s ∷ rest) = if may_throw s then record w { main = []; status = some 1 } else w

  abbrev pub main_next : World P → List Step → Option (World P)
  main_next w [] = some w
  main_next w (s ∷ rest) = main_step rest w s

  -- The tasks that the acceptor posted go to the logic thread; the new session is an object.
  abbrev pub after_accept : ℕ → Bool → ℕ → World P → GameServer → World P
  after_accept now failed session w gate = record w {
    gate = record gate { posted = [] };
    logic = post w.logic (jobs gate.posted);
    server = if failed then w.server else set_session session (new_session now) w.server;
  }

  abbrev pub after_read : ℕ → World P → UserSession × Bool × List Server.Task → World P
  after_read p w (u, result, tasks) = record w {
    logic = post w.logic (jobs tasks);
    server = set_session p u w.server;
  }

module _ {P : Type 0} (create : Text → Option P) (parse : List ℕ → P → P)
    (login_of : P → Option LoginReq) (ping_of : P → Bool) where
  abbrev pub run_job : ℕ → World P → Job → Option (World P)
  run_job now w start_up = do
    processor ← init_processor login_of ping_of
    some (record w { processor = processor; timers = init_timers now })
  run_job now w (does t) = some (record w { server = Server.step w.server t })

  abbrev pub call_handler : ℕ → World P → Option (LogicIo Job × Job) → Option (World P)
  call_handler now w none = some w
  call_handler now w (some (logic, job)) = run_job now (record w { logic = logic }) job

  -- An event that cannot come yet changes nothing.
  abbrev pub react : World P → Event → Option (World P)
  react w main_goes_on = main_next w w.main
  react w main_throws = some (main_catch w w.main)
  react w (logic_goes_on now) = call_handler now w (take_handler w.logic)
  react w (accepts now failed session) =
      if w.master.running
      then (if is_accepting w.gate.accepting
          then (do
            gate ← on_accept w.gate (failed, session)
            some (after_accept now failed session w gate))
          else some w)
      else some w
  react w (reads now p b) =
      if is_session p w.gate.sessions
      then (do
        r ← on_read_body create parse w.processor now p b (w.server.sessions p)
        some (after_read p w r))
      else some w
  react w (closes p) =
      if is_session p w.gate.sessions
      then some (record w { logic = post w.logic (does (Server.closes p) ∷ []) })
      else some w

  -- Once `main` has returned, the process is at its end.
  unfoldable pub step : World P → Event → Option (World P)
  step w e = if is_over w.status then some w else react w e

  unfoldable pub run : World P → List Event → Option (World P)
  run w [] = some w
  run w (e ∷ es) = do next ← step w e; run next es
