-- ===== src/Conversation.antt =====
-- A login from end to end: client/, server/, and the two directions of the connection between
-- them. What is read goes to the `OnReadBody` of the other side, whose result decides whether the
-- reading goes on.
pub mod Reading
pub mod Login
pub mod Tests
use fighting_card.Base.{ℕ, Bool, false, Option, none, some, List}
use fighting_card.Base.Text.{Text}
use fighting_card.Buffer.Memory.{Mem}
use fighting_card.UserBuffer.{UserBuffer}
use fighting_card.Dispatch.{Processor}
use fighting_card.Server
use fighting_card.Server.{UserSession, LoginRes}
use fighting_card.Server.Session
use fighting_card.Server.Session.{Request}
use fighting_card.Client
use fighting_card.Client.{User}
use fighting_card.Client.Answers
use fighting_card.Channel.{World, of_header}

-- A fault is no result.
abbrev pub server_result : Option (UserSession × Bool × List Server.Task) → Bool
server_result none = false
server_result (some r) = r.1

abbrev pub client_result : Option (Bool × List Answers.Task) → Bool
client_result none = false
client_result (some r) = r.0

module _ {P : Type 0} (create : Text → Option P) (parse : List ℕ → P → P) where
  -- The session `p`, with its buffer, reads the bytes that have come at the time `now`.
  abbrev pub server_reads :
      Processor ℕ P Request Server.Task → ℕ → ℕ → UserSession → UserBuffer → Mem → Bool
  server_reads processor now p u read_buf frame =
      server_result
        (Session.on_read_body create parse processor now p (record read_buf { mem = frame }) u)

  abbrev pub client_reads : Processor ℕ P LoginRes Answers.Task → ℕ → UserBuffer → Mem → Bool
  client_reads processor u read_buf frame =
      client_result
        (Client.on_read_body create parse processor (some u) (record read_buf { mem = frame }))
