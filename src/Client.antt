-- ===== src/Client.antt =====
-- client/: the connections of a user to the game server and to the queue server. gameclient.cpp
-- and queueclient.cpp have the same text but for the constructor. A client's `Pipe` is the list
-- of the buffers that its `Write` was given.
pub mod Pings
pub mod Users
pub mod Connect
pub mod Answers
pub mod QueueUsers
pub mod Tests
use fighting_card.Base.{
  ℕ, ◌-◌, Bool, true, false, ◌&&◌, Option, none, some, List, [], ◌∷◌, ◌++◌, ltb, leb, ◌==◌,
  if◌then◌else◌, ◌>>=◌,
}
use fighting_card.Base.Text.{Text}
use fighting_card.Message.{Message}
use fighting_card.UserBuffer.{UserBuffer, of_message, decode}
use fighting_card.Dispatch.{
  ErrorCode, ok, msg_not_register, reflection_protobuf_failed, protobuf_cast_failed, Processor,
  dispatch,
}
use fighting_card.Server.{LoginRes, login_success, login_queue, login_error, login_logined, lock}

-- `GameClient` and `QueueClient`.
pub record Client : Type 0 where
  pub last_write_time : ℕ
  pub written : List UserBuffer

unfoldable pub new_gameclient : Client
new_gameclient = record { last_write_time = 0; written = [] }

-- The constructor of `QueueClient` leaves `last_write_time_` out: it is any number.
unfoldable pub new_queueclient : ℕ → Client
new_queueclient indeterminate = record { last_write_time = indeterminate; written = [] }

-- `Write` at the time `now`.
unfoldable pub write : ℕ → UserBuffer → Client → Client
write now buf c = record c { last_write_time = now; written = c.written ++ buf ∷ [] }

unfoldable pub send_msg : ℕ → Message → Client → Option Client
send_msg now proto_msg c = do user_buf ← of_message proto_msg; some (write now user_buf c)

-- `PING_SEND_FREQUENCY`.
abbrev pub ping_send_frequency : ℕ
ping_send_frequency = 2

unfoldable pub ping_due : ℕ → Client → Bool
ping_due now c = ltb c.last_write_time now && leb ping_send_frequency (now - c.last_write_time)

-- `SendPingMsg`; `ping` is the empty `game::Ping`.
unfoldable pub send_ping_msg : Message → ℕ → Client → Option Client
send_ping_msg ping now c = if ping_due now c then send_msg now ping c else some c

-- Unlike the server, a client goes on after a message that has no handler.
abbrev pub is_ok : ErrorCode → Bool
is_ok ok = true
is_ok msg_not_register = true
is_ok reflection_protobuf_failed = false
is_ok protobuf_cast_failed = false

module _ {S P M T : Type 0} (create : Text → Option P) (parse : List ℕ → P → P)
    (processor : Processor S P M T) where
  -- `OnReadBody`, given the user if it still exists: its result, and what is posted.
  unfoldable pub on_read_body : Option S → UserBuffer → Option (Bool × List T)
  on_read_body user_wp read_buf = do
    (decoded, valid) ← decode read_buf
    if valid
        then elim user_wp [
          | none ↦ some (false, [])
          | some user ↦ do
            (ret_value, posted) ← dispatch create parse processor decoded user
            some (is_ok ret_value, posted)
        ]
        else some (false, [])

-- client/user.h, with weak pointers as addresses.
pub record User : Type 0 where
  pub gameclient : Option ℕ
  pub queueclient : Option ℕ
  pub appid : Text
  pub zone : ℕ
  pub uid : Text

-- The clients by their addresses, which of them exist, and the calls of `Close`.
pub record Clients : Type 0 where
  pub client : ℕ → Client
  pub exists : ℕ → Bool
  pub closed : List ℕ

abbrev pub set_client : ℕ → Clients → Client → Clients
set_client p w c = record w { client = λ q. if p == q then c else w.client q }

-- What `SendGameMsg` and `SendQueueMsg` do with the pointer that they lock.
unfoldable pub send_locked : ℕ → Message → Clients → Option ℕ → Option Clients
send_locked now proto_msg w none = some w
send_locked now proto_msg w (some p) = do
  c ← send_msg now proto_msg (w.client p)
  some (set_client p w c)

unfoldable pub send_game_msg : ℕ → Message → User → Clients → Option Clients
send_game_msg now proto_msg u w = send_locked now proto_msg w (lock w.exists u.gameclient)

unfoldable pub send_queue_msg : ℕ → Message → User → Clients → Option Clients
send_queue_msg now proto_msg u w = send_locked now proto_msg w (lock w.exists u.queueclient)

-- `CloseGameClient` logs that the client is gone and calls it nevertheless: a fault.
unfoldable pub close_game : Clients → Option ℕ → Option Clients
close_game w none = none
close_game w (some p) = some (record w { closed = w.closed ++ p ∷ [] })

unfoldable pub close_game_client : User → Clients → Option Clients
close_game_client u w = close_game w (lock w.exists u.gameclient)

-- `CloseQueueClient` returns.
unfoldable pub close_queue : Clients → Option ℕ → Clients
close_queue w none = w
close_queue w (some p) = record w { closed = w.closed ++ p ∷ [] }

unfoldable pub close_queue_client : User → Clients → Clients
close_queue_client u w = close_queue w (lock w.exists u.queueclient)

-- What `Init` has `ConnectGame` do when the connection to the client at `p` has succeeded or
-- failed: the weak pointer is set, and the callback sends the login request.
unfoldable pub on_connected : Bool → ℕ → ℕ → Message → User → Clients → Option (User × Clients)
on_connected failed now p login_req u w = if failed then some (u, w) else do
  let connected = record u { gameclient = some p }
  after ← send_game_msg now login_req connected w
  some (connected, after)

-- `ConnectQueue`, of which nothing waits for the connection: the weak pointer is set at once.
unfoldable pub connect_queue : ℕ → User → User
connect_queue p u = record u { queueclient = some p }

-- Its handler, with what the callback does.
unfoldable pub on_queue_connected :
    Bool → ℕ → (User → Clients → Option Clients) → User → Clients → Option (User × Clients)
on_queue_connected failed p callback u w = if failed then some (u, w) else do
  let connected = record u { queueclient = some p }
  after ← callback connected w
  some (connected, after)

-- `GameLoginRspHandle`.
unfoldable pub login_rsp : LoginRes → User → Clients → Option Clients
login_rsp login_success u w = some w
login_rsp login_error u w = close_game_client u w
login_rsp login_queue u w = close_game_client u w
login_rsp login_logined u w = close_game_client u w
