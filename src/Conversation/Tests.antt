-- ===== src/Conversation/Tests.antt =====
-- User "7" logs in at an empty server.
use fighting_card.Base.{ℕ, ◌≡◌, refl, Bool, true, false, Option, some, List, [], ◌∷◌, arith}
use fighting_card.Base.Text.{Text}
use fighting_card.Base.Dict.{find}
use fighting_card.Buffer.{user_layout, cleared}
use fighting_card.Buffer.Memory.{Mem}
use fighting_card.Message.Samples.{
  login_name, login_payload, login-IsWire, of_payload, of_payload-IsWire,
}
use fighting_card.Message.Samples
use fighting_card.UserBuffer
use fighting_card.UserBuffer.{UserBuffer}
use fighting_card.Channel.{World, of_header}
use fighting_card.Channel.Fifo.{quiet}
use fighting_card.Server
use fighting_card.Server.{
  Logic, UserSession, LoginReq, LoginRes, login_success, normal, init, login, login_normal,
  find_user, accept,
}
use fighting_card.Server.Logins.{is_user, uid_of}
use fighting_card.Server.Session
use fighting_card.Server.Session.Requests
use fighting_card.Client
use fighting_card.Client.{User, Clients}
use fighting_card.Client.Answers
use fighting_card.Client.Answers.{rsp_name, run_tasks}
use fighting_card.Conversation.Login.{arrivals, Login, server_side, client_side, login_conversation}

abbrev m : Login (List ℕ)
m = record {
  request = Samples.login;
  request_payload = login_payload;
  answer = of_payload rsp_name (8 ∷ 0 ∷ []);
  answer_payload = 8 ∷ 0 ∷ [];
  req = record { type = normal; uid = 55 ∷ []; token = [] };
}

-- A dynamic message is its bytes.
abbrev create : Text → Option (List ℕ)
create name = some []

abbrev parse : List ℕ → List ℕ → List ℕ
parse bytes msg = bytes

abbrev login_of : List ℕ → Option LoginReq
login_of bytes = some m.req

abbrev ping_of : List ℕ → Bool
ping_of bytes = true

abbrev rsp_of : List ℕ → Option LoginRes
rsp_of bytes = some login_success

abbrev session : UserSession
session = record { session_id = 1; authed = false; user_id = []; last_alive_time = 100 }

abbrev empty : Logic
empty = init (λ p. session) (λ p. true)

abbrev user : ℕ
user = 9

abbrev waiting : World UserBuffer
waiting = quiet (cleared user_layout) (of_header ∷ [])

answered : rsp_of (8 ∷ 0 ∷ []) ≡ some (login 4 m.req empty).1
unfolding login login_normal accept find_user find init
answered = refl

abbrev at_server : World UserBuffer → UserBuffer → Option (World UserBuffer)
at_server w b =
    server_side create parse login_of ping_of rsp_of [] [] m empty 103 4 session user
      UserBuffer.fresh UserBuffer.fresh UserBuffer.fresh UserBuffer.fresh waiting waiting w
      (arrivals b)

abbrev at_client : World UserBuffer → UserBuffer → Option (World UserBuffer)
at_client w b =
    client_side create parse login_of ping_of rsp_of [] [] m empty 103 4 session user
      UserBuffer.fresh UserBuffer.fresh UserBuffer.fresh UserBuffer.fresh waiting waiting w
      (arrivals b)

login_conversation_example :
    (sent reply : UserBuffer) × (ws' wc' : World UserBuffer) × (frame back : Mem) × (tasks : List
      Server.Task)
    × (answers : List Answers.Task) × (UserBuffer.encode Samples.login UserBuffer.fresh ≡ some sent)
    × (at_server waiting sent ≡ some ws')
    × (ws'.frames ≡ frame ∷ [])
    × (ws'.reading ≡ of_header ∷ [])
    × (Session.on_read_body create parse
          (Requests.ready login_of ping_of)
          103
          4
          (record UserBuffer.fresh { mem = frame })
          session
        ≡ some (record session { last_alive_time = 103 }, true, tasks))
    × (is_user (55 ∷ []) (Server.run empty tasks) ≡ true)
    × (uid_of (Server.run empty tasks) 4 ≡ 55 ∷ [])
    × (((Server.run empty tasks).sessions 4).authed ≡ true)
    × (UserBuffer.encode m.answer UserBuffer.fresh ≡ some reply)
    × (at_client waiting reply ≡ some wc')
    × (wc'.frames ≡ back ∷ [])
    × (wc'.reading ≡ of_header ∷ [])
    × (Client.on_read_body create parse
          (Answers.ready rsp_of)
          (some user)
          (record UserBuffer.fresh { mem = back })
        ≡ some (true, answers))
    × ((users : ℕ → User) (w : Clients) → run_tasks answers users w ≡ some w)
login_conversation_example =
    login_conversation create parse login_of ping_of rsp_of [] [] m empty 103 4 session user
      UserBuffer.fresh UserBuffer.fresh UserBuffer.fresh UserBuffer.fresh waiting waiting
      (login-IsWire, refl, refl, omega arith) refl refl refl refl
      (unfold init in unfold find_user in unfold find in refl)
      (of_payload-IsWire rsp_name (8 ∷ 0 ∷ []) (omega arith), refl, refl, omega arith) refl answered
      refl
