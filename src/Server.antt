-- ===== src/Server.antt =====
-- server/: the game server. What its handlers share runs on the one thread of `LogicIo`, a task at
-- a time, in the order in which the tasks were posted; a task is a function on `Logic`. Objects
-- are known by their address, a number.
pub mod Ids
pub mod Alive
pub mod Online
pub mod Logins
pub mod Exclusive
pub mod Races
pub mod Registry
pub mod Ownership
pub mod Session
pub mod Tests
use fighting_card.Base.{
  ℕ, suc, ◌+◌, ◌-◌, Bool, true, false, ◌&&◌, Option, none, some, List, [], ◌∷◌, ltb, leb, ◌==◌,
  if◌then◌else◌,
}
use fighting_card.Base.Text.{Text}
use fighting_card.Base.Word.{u32}
use fighting_card.Base.Dict.{Dict, nat_Eq, text_Eq, find, insert, erase}

-- server/user.h.
pub record User : Type 0 where
  pub uid : Text

-- The members of `UserSession` that the logic thread reads and writes, and its clock.
pub record UserSession : Type 0 where
  pub session_id : ℕ
  pub authed : Bool
  pub user_id : Text
  pub last_alive_time : ℕ

-- `UserSession(socket)` at the time `now`.
unfoldable pub new_session : ℕ → UserSession
new_session now = record { session_id = 0; authed = false; user_id = []; last_alive_time = now }

-- The singletons: `users_`, `user_sessions_` with addresses for its weak pointers, the static
-- `session_id` of `AddSession`, the session objects, and which of them still exist.
pub record Logic : Type 0 where
  pub users : Dict Text User
  pub user_sessions : Dict ℕ ℕ
  pub last_session_id : ℕ
  pub sessions : ℕ → UserSession
  pub exists : ℕ → Bool

abbrev pub set_session : ℕ → UserSession → Logic → Logic
set_session p u s = record s { sessions = λ q. if p == q then u else s.sessions q }

-- `UserManager`.
unfoldable pub find_user : Text → Logic → Option User
find_user uid s = find uid s.users

abbrev add_found : User → Logic → Option User → Logic × Bool
add_found user s (some old) = (s, false)
add_found user s none = (record s { users = (insert user.uid user s.users).0 }, true)

unfoldable pub add_user : User → Logic → Logic × Bool
add_user user s = add_found user s (find_user user.uid s)

unfoldable pub del_user : Text → Logic → Logic
del_user uid s = record s { users = erase uid s.users }

-- `UserSessionManager`: the counter is a `uint32_t` and steps over 0.
unfoldable pub next_session_id : ℕ → ℕ
next_session_id n = let n' = u32 (n + 1) in if n' == 0 then n' + 1 else n'

unfoldable pub add_session : ℕ → Logic → Logic
add_session p s =
    let id = next_session_id s.last_session_id in
    set_session p (record (s.sessions p) { session_id = id })
      (record s { last_session_id = id; user_sessions = (insert id p s.user_sessions).0 })

unfoldable pub del_session : ℕ → Logic → Logic
del_session id s = record s { user_sessions = erase id s.user_sessions }

-- `lock()` of the weak pointer that was found.
abbrev pub lock : (ℕ → Bool) → Option ℕ → Option ℕ
lock exists none = none
lock exists (some p) = if exists p then some p else none

unfoldable pub get_session : ℕ → Logic → Option ℕ
get_session id s = lock s.exists (find id s.user_sessions)

-- msg/game.proto.
pub data LoginType : Type 0 where
  normal queued : LoginType

pub data LoginRes : Type 0 where
  login_success login_queue login_error login_logined : LoginRes

pub record LoginReq : Type 0 where
  pub type : LoginType
  pub uid : Text
  pub token : Text

-- The state after the identity is accepted, and the `LoginRsp` that is sent.
unfoldable pub accept : ℕ → Text → Logic → Logic × LoginRes
accept p uid s =
    (set_session p (record (s.sessions p) { user_id = uid; authed = true }) s, login_success)

unfoldable pub login_normal : ℕ → Text → Logic → Option User → Logic × LoginRes
login_normal p uid s (some user) = (s, login_logined)
login_normal p uid s none = accept p uid (add_user (record { uid = uid }) s).0

-- `LoginReqHandle`.
unfoldable pub login : ℕ → LoginReq → Logic → Logic × LoginRes
login p req s = elim req.type [
  | normal ↦ login_normal p req.uid s (find_user req.uid s)
  | queued ↦ accept p req.uid s
]

-- What `OnClose` posts: the members are read when the task runs.
unfoldable pub closed : ℕ → Logic → Logic
closed p s =
    let without_user = del_user (s.sessions p).user_id s in
    del_session (s.sessions p).session_id without_user

-- `CHECK_ALIVE_TIME`, and the test by which `CheckAlive` closes a session.
abbrev pub check_alive_time : ℕ
check_alive_time = 5

unfoldable pub check_alive : ℕ → UserSession → Bool
check_alive now u = ltb u.last_alive_time now && leb check_alive_time (now - u.last_alive_time)

-- The tasks that the network threads post; `LoginReqHandle` and
-- `PingReqHandle`, which only logs, are posted by the processor.
pub data Task : Type 0 where
  adds closes pings : ℕ → Task
  logs_in : ℕ → LoginReq → Task

unfoldable pub step : Logic → Task → Logic
step s (adds p) = add_session p s
step s (closes p) = closed p s
step s (logs_in p req) = (login p req s).0
step s (pings p) = s

unfoldable pub run : Logic → List Task → Logic
run s [] = s
run s (t ∷ ts) = run (step s t) ts

unfoldable pub init : (ℕ → UserSession) → (ℕ → Bool) → Logic
init sessions exists = record {
  users = [];
  user_sessions = [];
  last_session_id = 0;
  sessions = sessions;
  exists = exists;
}
