-- ===== src/GameProcess/Tests.antt =====
-- A server with four services in its pool, to which the session 4 connects.
use fighting_card.Base.{
  ℕ, ◌≡◌, ◌⊎◌, refl, Bool, true, false, Option, some, none, List, [], ◌∷◌, arith, ◌==◌,
  if◌then◌else◌,
}
use fighting_card.Base.Text.{Text}
use fighting_card.Config.{ServerConfig}
use fighting_card.UserBuffer
use fighting_card.UserBuffer.{UserBuffer, decode}
use fighting_card.UserBuffer.Total.{found}
use fighting_card.Dispatch.{no_handlers}
use fighting_card.Buffer.{load_byte}
use fighting_card.Acceptor.{on_accept}
use fighting_card.Server.{LoginReq, UserSession, normal}
use fighting_card.Server.Session.Requests.{ready}
use fighting_card.Threads
use fighting_card.Threads.{post}
use fighting_card.GameProcess.{
  World, main_goes_on, accepts, reads, jobs, init_timers, started, step, run,
}
use fighting_card.GameProcess.Kept.{tables}
use fighting_card.GameProcess.Points.{Point, at_join, rest_of, any_throws}
use fighting_card.GameProcess.Waits.{main_never_returns}
use fighting_card.GameProcess.Refused.{failed_accept_strands}
use fighting_card.GameProcess.Startup.{start_comes_first}
use fighting_card.GameProcess.Early.{one_accepted, reading, reached, early_frame_aborts}

abbrev c : ServerConfig
c = record {
  log = record { name = []; path = []; level = []; flush = []; thread = 1 };
  attr = record { id = 0; ip = []; port = []; thread = 4 };
  sdk = record { url = []; appid = []; zone = 0; count = 0 };
}

-- A dynamic message is its bytes.
abbrev create : Text → Option (List ℕ)
create name = some []

abbrev parse : List ℕ → List ℕ → List ℕ
parse bytes msg = bytes

abbrev login_of : List ℕ → Option LoginReq
login_of bytes = some (record { type = normal; uid = 55 ∷ []; token = [] })

abbrev ping_of : List ℕ → Bool
ping_of bytes = true

abbrev session : UserSession
session = record { session_id = 0; authed = false; user_id = []; last_alive_time = 0 }

abbrev start : World (List ℕ)
start = started c (λ p. session) (λ p. true)

abbrev up : World (List ℕ)
up = reading c (λ p. session) (λ p. true) 100 4

up-reached : run create parse login_of ping_of start (one_accepted 100 4) ≡ some up
up-reached = reached create parse login_of ping_of c (λ p. session) (λ p. true) 100 4 (omega arith)

main_never_returns_example :
    ((up.status ≡ none) × ((p : Point) × (up.main ≡ rest_of c p)))
    ⊎ ((up.status ≡ some 1) × (any_throws (one_accepted 100 4) ≡ true))
main_never_returns_example =
    main_never_returns create parse login_of ping_of c (λ p. session) (λ p. true)
      (one_accepted 100 4) up up-reached

start_comes_first_example :
    ((up.processor ≡ no_handlers) × (tables up.server ≡ ([], [])))
    ⊎ ((up.processor ≡ ready login_of ping_of) × ((since : ℕ) × (up.timers ≡ init_timers since)))
start_comes_first_example =
    start_comes_first create parse login_of ping_of c (λ p. session) (λ p. true)
      (one_accepted 100 4) up up-reached

-- The state after an accept that fails.
abbrev stranded : World (List ℕ)
stranded = record up {
  main = rest_of c at_join;
  master = record { running = false; stopped = false };
  gate = record up.gate { accepting = none };
}

stranded-reached :
    run create parse login_of ping_of up (accepts 101 true 5 ∷ main_goes_on ∷ []) ≡ some stranded
unfolding run step on_accept jobs post Threads.run_master
stranded-reached = refl

failed_accept_strands_example :
    (stranded.main ≡ rest_of c at_join)
    × (stranded.status ≡ none)
    × (stranded.gate.sessions ≡ up.gate.sessions)
failed_accept_strands_example =
    failed_accept_strands create parse login_of ping_of c up stranded 101 5 []
      (record {
        main_rest = refl;
        no_status = refl;
        thread = refl;
        not_stopped = refl;
        has_work = refl;
      })
      refl stranded-reached

-- The name has one byte, and the data none.
abbrev frame : UserBuffer
frame = record UserBuffer.fresh { mem = λ i. if i == 2 then 2 else if i == 3 then 120 else 0 }

frame-accepted : decode frame ≡ some (found frame, true)
unfolding decode load_byte
frame-accepted = refl

early_frame_aborts_example : step create parse login_of ping_of up (reads 101 4 frame) ≡ none
early_frame_aborts_example =
    early_frame_aborts create parse login_of ping_of c (λ p. session) (λ p. true)
      (one_accepted 100 4) up 4 101 frame (found frame) up-reached refl refl refl frame-accepted
