-- ===== src/ClientMain.antt =====
-- client/main.cpp: the start of the client and its loop over the users. The arguments are read by
-- the text of the server's `main`. A user is known by its place in `users_`, whose pointers are
-- all different; the pause after each user and the start of threads are not modelled.
pub mod Range
pub mod Ends
pub mod Exits
pub mod Players
pub mod Tests
use fighting_card.Base.{
  ℕ, zero, suc, ◌^◌, ◌-◌, ◌+◌, Bool, true, false, not, Option, none, some, List, [], ◌∷◌, ◌++◌,
  if◌then◌else◌, ltb, ◌==◌, length, ◌>>=◌,
}
use fighting_card.Base.Text.{Text}
use fighting_card.Base.Int.{int_le, increment, to_string, int_to_size}
use fighting_card.Client.{User}
use fighting_card.Config.{UsersInfo, ClientConfig}
use fighting_card.IoServicePool.{Pool, init, get_io_service, join_waits}
use fighting_card.Start.{
  Opt, Options, parse_options, no_options, Step, daemon_steps, init_log, init_pool, run_master,
  join_pool,
}

-- A user with the services of its processor and of its connection to the game server.
pub record Started : Type 0 where
  pub user : User
  pub processor_service : ℕ
  pub gameclient_service : ℕ

-- `User::Init`, up to the connection.
abbrev pub new_user : UsersInfo → ℕ → User
new_user info uid = record {
  gameclient = none;
  queueclient = none;
  appid = info.appid;
  zone = info.zone;
  uid = to_string uid;
}

-- `uid`, the pool, and `users_` of the `UserManager`.
pub record Loop : Type 0 where
  pub uid : ℕ
  pub pool : Pool
  pub users : List Started

-- How the loop goes on: with the next turn, with the code behind it, or with the `catch`.
pub data Turn : Type 0 where
  next ends throws : Loop → Turn

-- `AddUser`, and `++uid`.
unfoldable pub add_user : Started → Pool → Loop → Option Turn
add_user user pool s = do
  uid ← increment s.uid
  some (next (record { uid = uid; pool = pool; users = s.users ++ user ∷ [] }))

-- `resolves` says whether the address of the game server can be resolved at the user's turn; if
-- not, `Connect` throws.
module _ (resolves : ℕ → Bool) (info : UsersInfo) where
  -- The body of the loop.
  unfoldable pub start_user : Loop → Option Turn
  start_user s = do
    (pool, processor_service) ← get_io_service s.pool
    (connecting, gameclient_service) ← get_io_service pool
    let user : Started = record {
      user = new_user info s.uid;
      processor_service = processor_service;
      gameclient_service = gameclient_service;
    }
    if resolves s.uid
        then add_user user connecting s
        else some (throws (record s { pool = connecting }))

  -- The condition, and the body if it holds.
  unfoldable pub turn : Loop → Option Turn
  turn s = if int_le s.uid info.uid_to then start_user s else some (ends s)

  -- At most `fuel` turns.
  unfoldable pub run_loop : ℕ → Loop → Option Turn
  run_loop zero s = some (next s)
  run_loop (suc fuel) s = do
    done ← turn s
    elim done [
      | next s' ↦ run_loop fuel s'
      | ends s' ↦ some (ends s')
      | throws s' ↦ some (throws s')
    ]

-- The loop still runs, `main` waits in `Join`, or it has returned a value.
pub data Status : Type 0 where
  looping waits : Status
  returned : ℕ → Status

pub record Exit : Type 0 where
  pub steps : List Step
  pub users : List Started
  pub status : Status

-- `Run` of the `MasterIo` returns at once, since nothing is posted to its service, and `Join` waits
-- for the threads of the pool. After the `catch`, or if there is no thread to wait for, `main`
-- comes to its end, which returns 0.
abbrev pub leave : List Step → Turn → Exit
leave steps (next s) = record { steps = steps; users = s.users; status = looping }
leave steps (throws s) = record { steps = steps; users = s.users; status = returned 0 }
leave steps (ends s) = record {
  steps = steps ++ run_master ∷ join_pool ∷ [];
  users = s.users;
  status = if join_waits s.pool then waits else returned 0;
}

-- `exit` without users.
abbrev pub refuse : List Step → ℕ → Exit
refuse steps status = record { steps = steps; users = []; status = returned status }

module _ (load : Text → ClientConfig → Bool × ClientConfig) (log_throws : Bool)
    (resolves : ℕ → Bool) (initial : ClientConfig) (instance_pool : Pool) (fuel : ℕ) where
  -- The second `try` block.
  unfoldable pub start_users : List Step → ClientConfig → Option Exit
  start_users logged c = do
    let start : Loop = record {
      uid = c.users_info.uid_from;
      pool = init (int_to_size c.thread) instance_pool;
      users = [];
    }
    done ← run_loop resolves c.users_info fuel start
    some (leave (logged ++ init_pool c.thread ∷ []) done)

  abbrev pub start_loaded : Options → Bool × ClientConfig → Option Exit
  start_loaded o (false, c) = some (refuse (daemon_steps o.daemon_status) 255)
  start_loaded o (true, c) =
      let logged = daemon_steps o.daemon_status ++ init_log (not o.daemon_status) ∷ [] in
      let started = start_users logged c in if log_throws then some (refuse logged 1) else started

  abbrev pub start_parsed : Option Options → Option Exit
  start_parsed none = some (refuse [] 1)
  start_parsed (some o) =
      if length o.config_path == 0
      then some (refuse [] 1)
      else start_loaded o (load o.config_path initial)

  -- `main` of the client; the value -1 is the status 255.
  unfoldable pub client_main : List Opt → Option Exit
  client_main opts = start_parsed (parse_options opts no_options)
