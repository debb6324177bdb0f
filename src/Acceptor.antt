-- ===== src/Acceptor.antt =====
-- common/server.h and server/gameserver.cpp: the accept loop of the game server. A session is its
-- address, which `make_shared` gives; the options of the sockets are not modelled.
pub mod Accepted
pub mod Tests
use fighting_card.Base.{
  ℕ, Bool, true, false, Option, none, some, List, [], ◌∷◌, ◌++◌, if◌then◌else◌, ◌>>=◌,
}
use fighting_card.IoServicePool.{Pool, get_io_service}
use fighting_card.Server.{Task, adds}

-- The pool that `GetSessionIoService` asks, the service of the accept that is under way, the
-- sessions with their services, in the order in which they begin to read, and the tasks that are
-- posted to the logic thread.
pub record GameServer : Type 0 where
  pub pool : Pool
  pub accepting : Option ℕ
  pub sessions : List (ℕ × ℕ)
  pub posted : List Task

-- `GetSessionIoService` of the game server.
abbrev pub get_session_io_service : GameServer → Option (Pool × ℕ)
get_session_io_service g = get_io_service g.pool

-- `OnAccept` posts `AddSession` to the logic thread; `OnAcceptError` only logs.
abbrev pub accepted : ℕ → GameServer → GameServer
accepted session g = record g { posted = g.posted ++ adds session ∷ [] }

abbrev pub accept_error : GameServer → GameServer
accept_error g = g

-- `DoAccept`: the service is taken before there is a connection.
unfoldable pub do_accept : GameServer → Option GameServer
do_accept g = do
  (pool, service) ← get_session_io_service g
  some (record g { pool = pool; accepting = some service })

-- The handler: a session is made, `OnAccept` posts `AddSession`, the session reads, and the next
-- accept begins; after an error there is no next.
abbrev pub handle_accept : GameServer → Bool → ℕ → Option ℕ → Option GameServer
handle_accept g failed session none = some g
handle_accept g true session (some service) = some (accept_error (record g { accepting = none }))
handle_accept g false session (some service) =
    do_accept (accepted session (record g { sessions = g.sessions ++ (session, service) ∷ [] }))

-- asio completes the accept that is under way, if there is one.
unfoldable pub on_accept : GameServer → Bool × ℕ → Option GameServer
on_accept g e = handle_accept g e.0 e.1 g.accepting

unfoldable pub accept_all : GameServer → List (Bool × ℕ) → Option GameServer
accept_all g [] = some g
accept_all g (e ∷ es) = do next ← on_accept g e; accept_all next es
