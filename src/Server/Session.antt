-- ===== src/Server/Session.antt =====
-- server/user_session.cpp and server/user_session_processor.cpp: what the network thread does
-- with the frames of a session. `login_of` and `ping_of` are the casts to the two messages of
-- msg/game.proto that have a handler.
pub mod Requests
pub mod Tests
use fighting_card.Base.{
  ℕ, Bool, true, false, Option, none, some, List, [], ◌∷◌, ◌>>=◌, if◌then◌else◌,
}
use fighting_card.Base.Text.{Text}
use fighting_card.UserBuffer.{UserBuffer, decode}
use fighting_card.Dispatch.{
  ErrorCode, ok, msg_not_register, reflection_protobuf_failed, protobuf_cast_failed, Handler,
  Processor, no_handlers, set_io_service, add_handler, dispatch,
}
use fighting_card.Server.{UserSession, LoginReq, Task, logs_in, pings}

pub data Request : Type 0 where
  login_request : LoginReq → Request
  ping_request : Request

-- The lambda of `Process`, which calls `LoginReqHandle` or `PingReqHandle`.
abbrev pub request_task : ℕ → Request → Task
request_task p (login_request req) = logs_in p req
request_task p ping_request = pings p

module _ {P : Type 0} (login_of : P → Option LoginReq) (ping_of : P → Bool) where
  abbrev pub login_request_of : Option LoginReq → Option Request
  login_request_of none = none
  login_request_of (some req) = some (login_request req)

  -- "game.LoginReq".
  abbrev pub login_handler : Handler ℕ P Request Task
  login_handler = record {
    full_name = 103 ∷ 97 ∷ 109 ∷ 101 ∷ 46 ∷ 76 ∷ 111 ∷ 103 ∷ 105 ∷ 110 ∷ 82 ∷ 101 ∷ 113 ∷ [];
    cast = λ msg. login_request_of (login_of msg);
    func = request_task;
  }

  -- "game.Ping".
  abbrev pub ping_handler : Handler ℕ P Request Task
  ping_handler = record {
    full_name = 103 ∷ 97 ∷ 109 ∷ 101 ∷ 46 ∷ 80 ∷ 105 ∷ 110 ∷ 103 ∷ [];
    cast = λ msg. if ping_of msg then some ping_request else none;
    func = request_task;
  }

  -- `UserSessionProcessor::Init`.
  unfoldable pub init_processor : Option (Processor ℕ P Request Task)
  init_processor = do
    with_login ← add_handler login_handler (set_io_service no_handlers)
    add_handler ping_handler with_login

-- Which codes `OnReadBody` returns true for.
abbrev pub is_ok : ErrorCode → Bool
is_ok ok = true
is_ok msg_not_register = false
is_ok reflection_protobuf_failed = false
is_ok protobuf_cast_failed = false

module _ {P : Type 0} (create : Text → Option P) (parse : List ℕ → P → P)
    (processor : Processor ℕ P Request Task) where
  -- `UserSession::OnReadBody` of the session `p` at the time `now`: the session, its result, and
  -- the tasks that are posted.
  unfoldable pub on_read_body :
      ℕ → ℕ → UserBuffer → UserSession → Option (UserSession × Bool × List Task)
  on_read_body now p read_buf u = do
    (decoded, valid) ← decode read_buf
    if valid
        then (do
          (ret_value, posted) ← dispatch create parse processor decoded p
          some (record u { last_alive_time = now }, is_ok ret_value, posted))
        else some (u, false, [])
