-- ===== src/ClientMain/Tests.antt =====
-- The users 8, 9 and 10 on a pool of two services.
use fighting_card.Base.{
  ℕ, ◌-◌, ◌+◌, ◌^◌, ◌≡◌, ◌<◌, ◌≤◌, refl, Bool, true, false, none, some, List, [], ◌∷◌, arith,
  replicate, ltb,
}
use fighting_card.Base.Text.{Text}
use fighting_card.Base.Int.{int_max, to_string, digits_before, place}
use fighting_card.Config.{UsersInfo, ClientConfig}
use fighting_card.IoServicePool.{Pool}
use fighting_card.Server.{init, login_success, new_session, find_user}
use fighting_card.Server.Logins.{is_user}
use fighting_card.Base.Dict.{find}
use fighting_card.Start.{
  Opt, debug, config, create_daemon, init_log, init_pool, run_master, join_pool,
}
use fighting_card.ClientMain.{
  Started, new_user, Loop, ends, Exit, waits, returned, run_loop, client_main,
}
use fighting_card.ClientMain.Ends.{loop_start, run_loop-overflow}
use fighting_card.ClientMain.Exits.{client_main-users, client_main-unresolved}
use fighting_card.ClientMain.Players.{log_in_all, players_accepted}

to_string_10 : to_string 10 ≡ 49 ∷ 48 ∷ []
unfolding to_string digits_before
to_string_10 = refl

to_string_minus_3 : to_string (2 ^ 32 - 3) ≡ 45 ∷ 51 ∷ []
unfolding to_string digits_before
to_string_minus_3 = refl

abbrev info : UsersInfo
info = record { appid = 97 ∷ []; zone = 1; uid_from = 8; uid_to = 10 }

abbrev to_the_last : UsersInfo
to_the_last = record info { uid_from = int_max - 2; uid_to = int_max }

abbrev two_services : Pool
two_services = record { io_services = 2; works = []; next_io_service = 0; stopped = [] }

abbrev empty_pool : Pool
empty_pool = record { io_services = 0; works = []; next_io_service = 0; stopped = [] }

abbrev always : ℕ → Bool
always uid = true

-- Only the addresses before the turn of the user 9 are resolved.
abbrev until_9 : ℕ → Bool
until_9 uid = ltb (place uid) (place 9)

run_loop-overflow_example :
    run_loop always to_the_last 5 (loop_start always to_the_last two_services) ≡ none
run_loop-overflow_example =
    run_loop-overflow always to_the_last two_services 5 (omega arith) (omega arith) refl
      (λ uid. refl) (omega arith)

nobody : (t : Text) → is_user t (init (λ p. new_session 0) (λ p. true)) ≡ false
unfolding init find_user find
nobody t = refl

players_accepted_example :
    (l : Loop) × (run_loop always info 9 (loop_start always info two_services) ≡ some (ends l))
    × (log_in_all 70 l.users (init (λ p. new_session 0) (λ p. true)) ≡ replicate 3 login_success)
players_accepted_example =
    players_accepted always info two_services 9 70 (init (λ p. new_session 0) (λ p. true))
      (omega arith) (omega arith) (omega arith) (λ uid. refl) (omega arith) nobody

abbrev config_path : Text
config_path = 99 ∷ []

abbrev arguments : List Opt
arguments = config config_path ∷ debug ∷ []

abbrev loaded : ClientConfig
loaded = record {
  log = record { name = []; path = []; level = []; flush = []; thread = 1 };
  id = 0;
  thread = 2;
  users_info = info;
  queueserver = record { ip = []; port = [] };
  gameserver = record { ip = []; port = [] };
}

abbrev load : Text → ClientConfig → Bool × ClientConfig
load file old = (true, loaded)

abbrev user_at : ℕ → ℕ → ℕ → Started
user_at uid a b = record { user = new_user info uid; processor_service = a; gameclient_service = b }

client_main-users_example :
    client_main load false always loaded empty_pool 9 arguments
    ≡ some (record {
      steps = create_daemon ∷ init_log false ∷ init_pool 2 ∷ run_master ∷ join_pool ∷ [];
      users = user_at 8 0 1 ∷ user_at 9 0 1 ∷ user_at 10 0 1 ∷ [];
      status = waits;
    })
client_main-users_example =
    client_main-users load false always loaded empty_pool 9 arguments loaded refl (λ e. cc e) refl
      refl (omega arith) (omega arith) refl (omega arith) (omega arith) (λ uid. refl) (omega arith)

resolved : (uid : ℕ) → place 8 ≤ place uid → place uid < place 8 + 1 → until_9 uid ≡ true
resolved uid low high = ground arith

client_main-unresolved_example :
    (e : Exit) × (client_main load false until_9 loaded empty_pool 9 arguments ≡ some e)
    × (e.status ≡ returned 0)
    × (e.steps ≡ create_daemon ∷ init_log false ∷ init_pool 2 ∷ [])
    × (e.users ≡ user_at 8 0 1 ∷ [])
client_main-unresolved_example =
    client_main-unresolved load false until_9 loaded empty_pool 9 arguments loaded 1 refl
      (λ e. cc e) refl refl (omega arith) (omega arith) refl (omega arith) (omega arith) resolved
      refl (omega arith)
