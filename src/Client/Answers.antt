-- ===== src/Client/Answers.antt =====
-- client/user_processor.cpp: the client's handler of the login response, and what the answers of
-- the server come to. A `User` is shared and known by its address; a task is a function on the
-- users and the clients as they are when it runs.
use fighting_card.Base.{
  ℕ, ◌+◌, ◌≡◌, ◌≤◌, ◌<◌, refl, true, Option, some, List, [], ◌∷◌, ◌++◌, arith, length, ◌>>=◌, ap,
}
use fighting_card.Base.Text.{Text, text_eq}
use fighting_card.Base.Dict.{text_Eq, find, insert}
use fighting_card.Message.{Message, IsWire}
use fighting_card.UserBuffer
use fighting_card.UserBuffer.{UserBuffer}
use fighting_card.Dispatch.{Handler, Processor, no_handlers, set_io_service, add_handler, process}
use fighting_card.Dispatch.Handled.{dispatch-encode}
use fighting_card.Server
use fighting_card.Server.{
  Logic, LoginReq, LoginRes, login_success, login_logined, normal, find_user, login, lock,
}
use fighting_card.Server.Logins.{login_refused}
use fighting_card.Client.{User, Clients, on_read_body, login_rsp, close_game_client, close_game}

abbrev pub Task : Type 0
Task = (ℕ → User) → Clients → Option Clients

unfoldable pub run_tasks : List Task → (ℕ → User) → Clients → Option Clients
run_tasks [] users w = some w
run_tasks (t ∷ ts) users w = do after ← t users w; run_tasks ts users after

-- `GameLoginRspHandle` of the user at an address.
abbrev pub rsp_task : ℕ → LoginRes → Task
rsp_task u result users w = login_rsp result (users u) w

-- "game.LoginRsp".
abbrev pub rsp_name : Text
rsp_name = 103 ∷ 97 ∷ 109 ∷ 101 ∷ 46 ∷ 76 ∷ 111 ∷ 103 ∷ 105 ∷ 110 ∷ 82 ∷ 115 ∷ 112 ∷ []

module _ {P : Type 0} (rsp_of : P → Option LoginRes) where
  abbrev pub rsp_handler : Handler ℕ P LoginRes Task
  rsp_handler = record { full_name = rsp_name; cast = rsp_of; func = rsp_task }

  -- The constructor of `UserProcessor`, and its `Init`.
  unfoldable pub init_user_processor : Option (Processor ℕ P LoginRes Task)
  init_user_processor = add_handler rsp_handler (set_io_service no_handlers)

  abbrev pub ready : Processor ℕ P LoginRes Task
  ready = record { io_service = true; handlers = (rsp_name, rsp_handler) ∷ [] }

  init-ready : init_user_processor ≡ some ready
  unfolding init_user_processor add_handler insert set_io_service no_handlers find text_eq
  init-ready = refl

  pub find-rsp : find rsp_name ready.handlers ≡ some rsp_handler
  unfolding find text_eq
  find-rsp = refl

  module _ (create : Text → Option P) (parse : List ℕ → P → P) (msg : Message) (payload : List ℕ)
      (b : UserBuffer) (u : ℕ) (blank : P) where
    -- A login response that the server encodes is accepted by the client, which posts its
    -- handler.
    pub answer_posted :
        (result : LoginRes)
        → IsWire msg payload
        → msg.type_name ≡ rsp_name
        → length payload ≤ 16367
        → create rsp_name ≡ some blank
        → rsp_of (parse payload blank) ≡ some result
        → (sent : UserBuffer) × (UserBuffer.encode msg b ≡ some sent)
          × (on_read_body create parse ready (some u) sent ≡ some (true, rsp_task u result ∷ []))
    unfolding on_read_body process
    answer_posted result wire name fits created parsed =
        let trip =
          dispatch-encode create parse ready u msg payload b refl wire (long) (short) (small) in
        (trip.0, trip.2, rw (trip.3, trip.4, name, find-rsp, created, parsed) refl)
      where
        size : length msg.type_name ≡ 13
        size = ap length name

        long : 1 ≤ length msg.type_name
        long = omega (arith, size)

        short : length msg.type_name < 255
        short = omega (arith, size)

        small : length msg.type_name + length payload ≤ 16380
        small = omega (arith, size, fits)

    -- A client whose uid is in use at the server is closed by the answer to its login, which
    -- changes nothing at the server.
    pub refused_login_closes :
        (s : Logic) (p q : ℕ) (req : LoginReq) (user : Server.User) (users : ℕ → User) (w : Clients)
        → req.type ≡ normal
        → find_user req.uid s ≡ some user
        → IsWire msg payload
        → msg.type_name ≡ rsp_name
        → length payload ≤ 16367
        → create rsp_name ≡ some blank
        → rsp_of (parse payload blank) ≡ some (login p req s).1
        → lock w.exists (users u).gameclient ≡ some q
        → (sent : UserBuffer) × (posted : List Task) × (after : Clients) × (UserBuffer.encode msg b
            ≡ some sent)
          × (on_read_body create parse ready (some u) sent ≡ some (true, posted))
          × (run_tasks posted users w ≡ some after)
          × (after.closed ≡ w.closed ++ q ∷ [])
          × ((login p req s).0 ≡ s)
    refused_login_closes s p q req user users w is_normal taken wire name fits created parsed
          there =
        let refused = login_refused s p req is_normal user taken in
        let answer = answer_posted login_logined wire name fits created (rw refused at parsed) in
        (
          answer.0,
          rsp_task u login_logined ∷ [],
          record w { closed = w.closed ++ q ∷ [] },
          answer.1,
          answer.2,
          unfold run_tasks login_rsp close_game_client close_game in rw there refl,
          refl,
          ap (λ r. r.0) refused,
        )
