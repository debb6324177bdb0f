-- ===== src/Server/Session/Requests.antt =====
-- What becomes of the messages that a client sends.
use fighting_card.Base.{
  ℕ, ◌+◌, ◌≡◌, ◌≢◌, ◌≤◌, ◌<◌, ◌∙◌, refl, Bool, true, false, Option, none, some, List, [], ◌∷◌,
  arith, length,
}
use fighting_card.Base.Text.{Text, text_eq, text_eq_iff, text_eq_refl}
use fighting_card.Base.Dict.{text_Eq, find, insert}
use fighting_card.Message.{Message, IsWire}
use fighting_card.Message.Samples.{login_name, ping_name}
use fighting_card.UserBuffer
use fighting_card.UserBuffer.{UserBuffer}
use fighting_card.Dispatch.{ErrorCode, Processor, no_handlers, set_io_service, add_handler, process}
use fighting_card.Dispatch.Handled.{handled, dispatch-encode}
use fighting_card.Server.{UserSession, Logic, find_user, normal, LoginReq, Task, logs_in, run}
use fighting_card.Server.Logins.{
  is_user, uid_of, uid_of-accepted, is_user-accepted, is_user-free, authed-accepted,
}
use fighting_card.Server.Session.{
  Request, login_handler, ping_handler, init_processor, on_read_body, is_ok,
}

module _ (s : Logic) (p : ℕ) (req : LoginReq) (is_normal : req.type ≡ normal)
    (free : is_user req.uid s ≡ false) where
  none_yet : find_user req.uid s ≡ none
  none_yet = is_user-free req.uid s free

  pub after_login :
      (is_user req.uid (run s (logs_in p req ∷ [])) ≡ true)
      × (uid_of (run s (logs_in p req ∷ [])) p ≡ req.uid)
      × (((run s (logs_in p req ∷ [])).sessions p).authed ≡ true)
  unfolding run
  after_login = (
    rw (is_user-accepted s p req is_normal none_yet req.uid, text_eq_refl req.uid),
    rw (uid_of-accepted s p req is_normal none_yet) (ground arith),
    authed-accepted s p req is_normal none_yet,
  )

module _ {P : Type 0} (login_of : P → Option LoginReq) (ping_of : P → Bool) where
  abbrev pub ready : Processor ℕ P Request Task
  ready = record {
    io_service = true;
    handlers =
        (ping_name, ping_handler login_of ping_of)
        ∷ (login_name, login_handler login_of ping_of)
        ∷ [];
  }

  pub init_processor-ready : init_processor login_of ping_of ≡ some ready
  unfolding init_processor add_handler insert set_io_service no_handlers find text_eq
  init_processor-ready = refl

  pub find-login : find login_name ready.handlers ≡ some (login_handler login_of ping_of)
  unfolding find text_eq
  find-login = refl

  find-other :
      (name : Text) → name ≢ login_name → name ≢ ping_name → find name ready.handlers ≡ none
  unfolding find
  find-other name h g = ground (arith, text_eq_iff ping_name name, text_eq_iff login_name name)

  module _ (create : Text → Option P) (parse : List ℕ → P → P) (now p : ℕ) (u : UserSession)
      (msg : Message) (payload : List ℕ) (b : UserBuffer) (w : IsWire msg payload)
      (long : 1 ≤ length msg.type_name) (short : length msg.type_name < 255)
      (fits : length msg.type_name + length payload ≤ 16380) where
    -- The answer of the table, and the time of the message.
    abbrev answered : ErrorCode × List Task → UserSession × Bool × List Task
    answered r = (record u { last_alive_time = now }, is_ok r.0, r.1)

    on_read_body-encode :
        (sent : UserBuffer) × (UserBuffer.encode msg b ≡ some sent)
        × (on_read_body create parse ready now p sent u
            ≡ some (answered (handled create parse (find msg.type_name ready.handlers) payload p)))
    unfolding on_read_body
    on_read_body-encode =
        let trip = dispatch-encode create parse ready p msg payload b refl w long short fits in
        (trip.0, trip.2, rw (trip.3, trip.4) refl)

    -- A message whose type has no handler ends the session: `OnReadBody` returns false, and
    -- nothing is posted.
    pub unknown_refused :
        msg.type_name ≢ login_name
        → msg.type_name ≢ ping_name
        → (sent : UserBuffer) × (UserBuffer.encode msg b ≡ some sent)
          × (on_read_body create parse ready now p sent u
              ≡ some (record u { last_alive_time = now }, false, []))
    unfolding on_read_body
    unknown_refused h g =
        let read = on_read_body-encode in
        (read.0, read.1, read.2 ∙ rw (find-other msg.type_name h g) refl)

    -- A login request that is encoded by the client is accepted by `OnReadBody`, which posts one
    -- task. When that runs and the name is free, the name is in `users_` and the session has it
    -- and is authed. `create` and `parse` give the request that the client's message wrote.
    pub login_arrives :
        (blank : P) (req : LoginReq) (s : Logic)
        → msg.type_name ≡ login_name
        → create login_name ≡ some blank
        → login_of (parse payload blank) ≡ some req
        → req.type ≡ normal
        → is_user req.uid s ≡ false
        → (sent : UserBuffer) × (posted : List Task) × (UserBuffer.encode msg b ≡ some sent)
          × (on_read_body create parse ready now p sent u
              ≡ some (record u { last_alive_time = now }, true, posted))
          × (is_user req.uid (run s posted) ≡ true)
          × (uid_of (run s posted) p ≡ req.uid)
          × (((run s posted).sessions p).authed ≡ true)
    unfolding on_read_body
    login_arrives blank req s name created parsed is_normal free =
        let read = on_read_body-encode in
        (
          read.0,
          logs_in p req ∷ [],
          read.1,
          read.2 ∙ rw (name, find-login) (unfold process in rw (created, parsed) refl),
          (after_login s p req is_normal free).0,
          (after_login s p req is_normal free).1,
          (after_login s p req is_normal free).2,
        )
