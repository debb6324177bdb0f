-- ===== src/Conversation/Login.antt =====
-- A login that succeeds, from the client's request to the client's handling of the answer.
use fighting_card.Base.{
  ℕ, ◌≡◌, ◌≤◌, ◌∙◌, refl, ap, Bool, true, false, Option, some, List, [], ◌∷◌, ◌++◌, length, arith,
}
use mathlib.Core.Path.{subst}
use fighting_card.Base.Text.{Text}
use fighting_card.Buffer.{user_layout}
use fighting_card.Buffer.Memory.{Mem}
use fighting_card.Message.{Message, IsWire}
use fighting_card.Message.Samples.{login_name}
use fighting_card.UserBuffer
use fighting_card.UserBuffer.{UserBuffer}
use fighting_card.UserBuffer.RoundTrip.{Carries}
use fighting_card.Channel.{World, Event, arrived, success, of_header, run}
use fighting_card.Channel.Reads.{header_of, body_of}
use fighting_card.Channel.Delivery.{message_received}
use fighting_card.Server
use fighting_card.Server.{
  Logic, UserSession, LoginReq, LoginRes, login_success, normal, login, logs_in,
}
use fighting_card.Server.Logins.{is_user, is_user-free, uid_of, login-success}
use fighting_card.Server.Session
use fighting_card.Server.Session.Requests
use fighting_card.Server.Session.Requests.{after_login}
use fighting_card.Client
use fighting_card.Client.{User, Clients, login_rsp}
use fighting_card.Client.Answers
use fighting_card.Client.Answers.{rsp_name, rsp_task, run_tasks}
use fighting_card.Conversation.{server_reads, client_reads}
use fighting_card.Conversation.Reading.{server_read, client_read}

-- The two reads of a frame.
abbrev pub arrivals : UserBuffer → List (Event UserBuffer)
arrivals b =
    arrived success (header_of user_layout b.mem) ∷ arrived success (body_of user_layout b.mem) ∷ []

-- The message has one of the two names of 13 bytes, and its body fits a frame.
abbrev pub IsNamed : Message → Text → List ℕ → Type 0
IsNamed msg name payload =
    IsWire msg payload × (msg.type_name ≡ name) × (length name ≡ 13) × (length payload ≤ 16363)

module _ {P : Type 0} (create : Text → Option P) (parse : List ℕ → P → P) (msg : Message)
    (payload : List ℕ) (b read_buf : UserBuffer) (blank : P) (w : World UserBuffer) where
  -- The request of a client at the server.
  request_read :
      (login_of : P → Option LoginReq) (ping_of : P → Bool) (now p : ℕ) (u : UserSession)
      (req : LoginReq)
      → IsNamed msg login_name payload
      → create login_name ≡ some blank
      → login_of (parse payload blank) ≡ some req
      → w.reading ≡ of_header ∷ []
      → let ready = Requests.ready login_of ping_of in
        (sent : UserBuffer) × (next : World UserBuffer) × (frame : Mem) × (UserBuffer.encode msg b
          ≡ some sent)
        × (run user_layout (server_reads create parse ready now p u read_buf) w (arrivals sent)
            ≡ some next)
        × (next.frames ≡ w.frames ++ frame ∷ [])
        × (next.reading ≡ of_header ∷ [])
        × (Session.on_read_body create parse ready now p (record read_buf { mem = frame }) u
            ≡ some (record u { last_alive_time = now }, true, logs_in p req ∷ []))
  request_read login_of ping_of now p u req named created parsed waiting =
      let ready = Requests.ready login_of ping_of in
      let size : length msg.type_name ≡ 13 = ap length named.1 ∙ named.2 in
      let got =
        message_received (server_reads create parse ready now p u read_buf) msg payload b w read_buf
          named.0 (omega (arith, size)) (omega (arith, size)) (omega (arith, size, named.3))
          waiting in
      let result =
        server_read create parse payload (record read_buf { mem = got.3 }) got.1 blank login_of
          ping_of now p u req got.7 (subst (λ n. Carries got.1 n payload) named.1 got.8)
          (omega (arith, named.3)) created parsed in
      (got.0, got.2, got.3, got.4, got.5, got.6, got.9 (rw result refl), result)

  -- The answer of the server at the client.
  answer_read :
      (rsp_of : P → Option LoginRes) (user : ℕ) (result : LoginRes)
      → IsNamed msg rsp_name payload
      → create rsp_name ≡ some blank
      → rsp_of (parse payload blank) ≡ some result
      → w.reading ≡ of_header ∷ []
      → let ready = Answers.ready rsp_of in
        (sent : UserBuffer) × (next : World UserBuffer) × (frame : Mem) × (UserBuffer.encode msg b
          ≡ some sent)
        × (run user_layout (client_reads create parse ready user read_buf) w (arrivals sent)
            ≡ some next)
        × (next.frames ≡ w.frames ++ frame ∷ [])
        × (next.reading ≡ of_header ∷ [])
        × (Client.on_read_body create parse ready (some user) (record read_buf { mem = frame })
            ≡ some (true, rsp_task user result ∷ []))
  answer_read rsp_of user result named created parsed waiting =
      let ready = Answers.ready rsp_of in
      let size : length msg.type_name ≡ 13 = ap length named.1 ∙ named.2 in
      let got =
        message_received (client_reads create parse ready user read_buf) msg payload b w read_buf
          named.0 (omega (arith, size)) (omega (arith, size)) (omega (arith, size, named.3))
          waiting in
      let read =
        client_read create parse payload (record read_buf { mem = got.3 }) got.1 blank rsp_of user
          result got.7 (subst (λ n. Carries got.1 n payload) named.1 got.8) (omega (arith, named.3))
          created parsed in
      (got.0, got.2, got.3, got.4, got.5, got.6, got.9 (rw read refl), read)

-- The protobuf messages of a login: the request, the answer, and what they parse to.
pub record Login (P : Type 0) : Type 0 where
  pub request : Message
  pub request_payload : List ℕ
  pub answer : Message
  pub answer_payload : List ℕ
  pub req : LoginReq

module _ {P : Type 0} (create : Text → Option P) (parse : List ℕ → P → P)
    (login_of : P → Option LoginReq) (ping_of : P → Bool) (rsp_of : P → Option LoginRes)
    (blank_req blank_rsp : P) (m : Login P) (s : Logic) (now p : ℕ) (u : UserSession) (user : ℕ)
    (server_buf client_buf b c : UserBuffer) (ws wc : World UserBuffer) where
  abbrev pub server_side : World UserBuffer → List (Event UserBuffer) → Option (World UserBuffer)
  server_side =
      run user_layout
        (server_reads create parse (Requests.ready login_of ping_of) now p u server_buf)

  abbrev pub client_side : World UserBuffer → List (Event UserBuffer) → Option (World UserBuffer)
  client_side = run user_layout (client_reads create parse (Answers.ready rsp_of) user client_buf)

  -- Server and client await a header, and the name is free. The client's request, encoded and sent
  -- as two reads, is posted as a task; when it has run, the name is in use, and the session has it
  -- and is authed. The answer, encoded and sent back, is posted at the client as a task that
  -- changes nothing. Both sides await the next header.
  pub login_conversation :
      IsNamed m.request login_name m.request_payload
      → create login_name ≡ some blank_req
      → login_of (parse m.request_payload blank_req) ≡ some m.req
      → ws.reading ≡ of_header ∷ []
      → m.req.type ≡ normal
      → is_user m.req.uid s ≡ false
      → IsNamed m.answer rsp_name m.answer_payload
      → create rsp_name ≡ some blank_rsp
      → rsp_of (parse m.answer_payload blank_rsp) ≡ some (login p m.req s).1
      → wc.reading ≡ of_header ∷ []
      → (sent reply : UserBuffer) × (ws' wc' : World UserBuffer) × (frame back : Mem)
        × (tasks : List Server.Task) × (answers : List Answers.Task) × (UserBuffer.encode m.request
              b
            ≡ some sent)
        × (server_side ws (arrivals sent) ≡ some ws')
        × (ws'.frames ≡ ws.frames ++ frame ∷ [])
        × (ws'.reading ≡ of_header ∷ [])
        × (Session.on_read_body create parse
              (Requests.ready login_of ping_of)
              now
              p
              (record server_buf { mem = frame })
              u
            ≡ some (record u { last_alive_time = now }, true, tasks))
        × (is_user m.req.uid (Server.run s tasks) ≡ true)
        × (uid_of (Server.run s tasks) p ≡ m.req.uid)
        × (((Server.run s tasks).sessions p).authed ≡ true)
        × (UserBuffer.encode m.answer c ≡ some reply)
        × (client_side wc (arrivals reply) ≡ some wc')
        × (wc'.frames ≡ wc.frames ++ back ∷ [])
        × (wc'.reading ≡ of_header ∷ [])
        × (Client.on_read_body create parse
              (Answers.ready rsp_of)
              (some user)
              (record client_buf { mem = back })
            ≡ some (true, answers))
        × ((users : ℕ → User) (w : Clients) → run_tasks answers users w ≡ some w)
  login_conversation asks made parsed waiting is_normal free answered made' parsed' waiting' =
      let there =
        request_read create parse m.request m.request_payload b server_buf blank_req ws login_of
          ping_of now p u m.req asks made parsed waiting in
      let accepted = login-success s p m.req is_normal (is_user-free m.req.uid s free) in
      let back =
        answer_read create parse m.answer m.answer_payload c client_buf blank_rsp wc rsp_of user
          login_success answered made' (rw accepted at parsed') waiting' in
      let after = after_login s p m.req is_normal free in
      (
        there.0,
        back.0,
        there.1,
        back.1,
        there.2,
        back.2,
        logs_in p m.req ∷ [],
        rsp_task user login_success ∷ [],
        there.3,
        there.4,
        there.5,
        there.6,
        there.7,
        after.0,
        after.1,
        after.2,
        back.3,
        back.4,
        back.5,
        back.6,
        back.7,
        λ users w. unfold run_tasks login_rsp in refl,
      )
