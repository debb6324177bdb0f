-- ===== src/Client/Tests.antt =====
-- A client that has logged in at the time 100 and sends nothing more.
use fighting_card.Base.{
  ℕ, ◌≡◌, ◌≢◌, ◌↔◌, refl, Bool, true, false, Option, none, some, List, [], ◌∷◌, ◌++◌, ◌≤◌, length,
  arith,
}
use fighting_card.Message.Samples.{
  ping, ping-IsWire, login, login_name, login_payload, login-IsWire, of_payload, of_payload-IsWire,
}
use fighting_card.UserBuffer
use fighting_card.UserBuffer.{UserBuffer, of_message}
use fighting_card.UserBuffer.RoundTrip.{Carries, decode-encode}
use fighting_card.Server.{
  UserSession, check_alive, login_error, login_success, login_logined, lock, Logic, LoginReq,
  LoginRes, normal, init, new_session, find_user,
}
use fighting_card.Server
use fighting_card.Base.Text.{Text, text_eq}
use fighting_card.Base.Dict.{find}
use fighting_card.Message.{Message}
use fighting_card.Client.{
  Client, write, User, Clients, on_read_body, connect_queue, on_queue_connected, send_queue_msg,
  send_game_msg, on_connected, login_rsp,
}
use fighting_card.Client.Pings.{IsSendable, seconds, pings_keep_alive}
use fighting_card.Client.Answers.{Task, run_tasks, rsp_name, refused_login_closes, ready}
use fighting_card.Client.Connect.{
  Connection, connected, connect, on_close, new_connection, ping_timer, connect_sends, run_timers,
}
use fighting_card.Client.Connect
use fighting_card.Client.QueueUsers.{failed_queue_written}
use fighting_card.Channel.{
  World, Event, success, aborted, failed, ErrorCode, task, written, ask, ask_all, write_all,
}
use fighting_card.Channel
use fighting_card.Channel.Queue.{pushes, requests}
use fighting_card.Timer.{idle, until}
use fighting_card.Buffer.{user_layout, cleared}
use fighting_card.Buffer.Memory.{Mem}
use fighting_card.Client.Users.{login_rsp_fault, on_connected-login}

ping-IsSendable : IsSendable ping
unfolding of_message
ping-IsSendable =
    let trip =
      decode-encode ping [] UserBuffer.fresh ping-IsWire (omega arith) (omega arith)
        (omega arith) in
    (trip.0, trip.2)

abbrev logged_in : Client
logged_in = record { last_write_time = 100; written = [] }

abbrev session : UserSession
session = record { session_id = 1; authed = true; user_id = []; last_alive_time = 100 }

pings_keep_alive_example :
    (d : Client) × (seconds ping false 100 ([] ∷ [] ∷ [] ∷ []) logged_in ≡ some d)
    × (check_alive 105 (record session { last_alive_time = d.last_write_time }) ≡ false)
pings_keep_alive_example =
    pings_keep_alive ping ping-IsSendable 100 2 ([] ∷ [] ∷ [] ∷ []) logged_in session refl
      (tt, (tt, (tt, tt))) (omega arith)

abbrev user : User
user = record { gameclient = none; queueclient = none; appid = []; zone = 1; uid = [] }

abbrev clients : Clients
clients = record { client = λ p. logged_in; exists = λ p. true; closed = [] }

login_rsp_fault_example :
    (login_rsp login_error user clients ≡ none)
    ↔ ((login_error ≢ login_success) × (lock clients.exists none ≡ none))
login_rsp_fault_example = login_rsp_fault user clients login_error

login_trip :
    (sent got : UserBuffer) × (of_message login ≡ some sent)
    × (UserBuffer.decode sent ≡ some (got, true))
    × Carries got login_name login_payload
unfolding of_message
login_trip =
    decode-encode login login_payload UserBuffer.fresh login-IsWire (omega arith) (omega arith)
      (omega arith)

abbrev login_frame : UserBuffer
login_frame = login_trip.0

on_connected-login_example :
    (v : User) × (after closed : Clients) × (on_connected false 101 3 login user clients
      ≡ some (v, after))
    × (after.client 3 ≡ write 101 login_frame logged_in)
    × ((q : ℕ) → 3 ≢ q → after.client q ≡ logged_in)
    × (login_rsp login_error v after ≡ some closed)
    × (closed.closed ≡ 3 ∷ [])
on_connected-login_example =
    on_connected-login user clients 101 3 login login_frame login_error login_trip.2 refl
      (λ e. cc e)

-- The user's callback writes the login request.
abbrev log_in : ErrorCode → List UserBuffer
log_in success = login_frame ∷ []
log_in aborted = []
log_in failed = []

abbrev accept_all : Mem → Bool
accept_all m = true

abbrev history : List (Event UserBuffer)
history = task ∷ written success ∷ []

abbrev ready_101 : Connection
ready_101 = Connect.ready accept_all log_in (cleared user_layout) 101

abbrev logged_in_world : World UserBuffer
logged_in_world = record ready_101.pipe { posted = []; sent = login_frame ∷ [] }

history_runs : Channel.run user_layout accept_all ready_101.pipe history ≡ some logged_in_world
unfolding connected connect Channel.run Channel.step Channel.step_task Channel.step_written
    Channel.run_task Channel.on_written Channel.write_posted Channel.pop_and_go_on Channel.do_write
    ask ask_all write_all Channel.on_connected
history_runs = refl

connect_sends_example :
    (ready_101.timers ≡ ping_timer (until 103) ∷ [])
    × ((on_close ready_101).timers ≡ ping_timer idle ∷ [])
    × (logged_in_world.sent ++ (logged_in_world.channel.write_bufs ++ pushes logged_in_world.posted)
        ≡ log_in success ++ requests history)
    × (length logged_in_world.reading ≤ 1)
connect_sends_example =
    connect_sends accept_all log_in (cleared user_layout) 101 history logged_in_world history_runs

abbrev callback : User → Clients → Option Clients
callback u w = some w

failed_queue_written_example :
    (v : User) × (after : Clients) × (on_queue_connected true 3 callback
        (connect_queue 3 user)
        clients
      ≡ some (v, clients))
    × (send_queue_msg 101 login v clients ≡ some after)
    × (after.client 3 ≡ write 101 login_frame logged_in)
    × (on_connected true 101 3 login user clients ≡ some (user, clients))
    × (send_game_msg 101 login user clients ≡ some clients)
failed_queue_written_example =
    failed_queue_written user clients 101 3 login login_frame callback login_trip.2 refl refl

-- The uid of the user is in use at the server, whose answer has three bytes.
abbrev taken : Logic
taken = record (init (λ p. new_session 0) (λ p. true)) { users = ([], record { uid = [] }) ∷ [] }

abbrev request : LoginReq
request = record { type = normal; uid = []; token = [] }

abbrev answer : Message
answer = of_payload rsp_name (8 ∷ 3 ∷ 0 ∷ [])

abbrev create : Text → Option (List ℕ)
create name = some []

abbrev parse : List ℕ → List ℕ → List ℕ
parse bytes msg = bytes

abbrev rsp_of : List ℕ → Option LoginRes
rsp_of bytes = some login_logined

abbrev connected_user : User
connected_user = record user { gameclient = some 3 }

refused : rsp_of (8 ∷ 3 ∷ 0 ∷ []) ≡ some (Server.login 70 request taken).1
unfolding Server.login Server.login_normal find_user find text_eq
refused = refl

refused_login_closes_example :
    (sent : UserBuffer) × (posted : List Task) × (after : Clients) × (UserBuffer.encode answer
        UserBuffer.fresh
      ≡ some sent)
    × (on_read_body create parse (ready rsp_of) (some 9) sent ≡ some (true, posted))
    × (run_tasks posted (λ p. connected_user) clients ≡ some after)
    × (after.closed ≡ 3 ∷ [])
    × ((Server.login 70 request taken).0 ≡ taken)
refused_login_closes_example =
    refused_login_closes rsp_of create parse answer (8 ∷ 3 ∷ 0 ∷ []) UserBuffer.fresh 9 [] taken 70
      3 request (record { uid = [] }) (λ p. connected_user) clients refl
      (unfold find_user in unfold find in unfold text_eq in refl)
      (of_payload-IsWire rsp_name (8 ∷ 3 ∷ 0 ∷ []) (omega arith)) refl (omega arith) refl refused
      refl
