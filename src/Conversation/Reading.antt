-- ===== src/Conversation/Reading.antt =====
-- What the two sides make of a buffer that decodes to a message.
use fighting_card.Base.{ℕ, ◌≡◌, ◌<◌, ◌^◌, refl, Bool, true, Option, some, List, [], ◌∷◌, length}
use fighting_card.Base.Text.{Text}
use fighting_card.UserBuffer.{UserBuffer, decode}
use fighting_card.UserBuffer.RoundTrip.{Carries}
use fighting_card.Message.Samples.{login_name}
use fighting_card.Dispatch.{process}
use fighting_card.Dispatch.Handled.{dispatch-Carries}
use fighting_card.Server.{UserSession, LoginReq, LoginRes, logs_in}
use fighting_card.Server.Session
use fighting_card.Server.Session.Requests
use fighting_card.Server.Session.Requests.{find-login}
use fighting_card.Client
use fighting_card.Client.Answers
use fighting_card.Client.Answers.{rsp_name, rsp_task, find-rsp}

module _ {P : Type 0} (create : Text → Option P) (parse : List ℕ → P → P) (payload : List ℕ)
    (read_buf got : UserBuffer) (blank : P) where
  -- A login request posts the login.
  pub server_read :
      (login_of : P → Option LoginReq) (ping_of : P → Bool) (now p : ℕ) (u : UserSession)
      (req : LoginReq)
      → decode read_buf ≡ some (got, true)
      → Carries got login_name payload
      → length payload < 2 ^ 32
      → create login_name ≡ some blank
      → login_of (parse payload blank) ≡ some req
      → Session.on_read_body create parse (Requests.ready login_of ping_of) now p read_buf u
        ≡ some (record u { last_alive_time = now }, true, logs_in p req ∷ [])
  unfolding Session.on_read_body process
  server_read login_of ping_of now p u req valid carries small created parsed =
      rw
        (
          valid,
          dispatch-Carries create parse (Requests.ready login_of ping_of) got p login_name payload
              refl small carries,
          find-login login_of ping_of,
          created,
          parsed,
        )
        refl

  -- A login response posts its handler.
  pub client_read :
      (rsp_of : P → Option LoginRes) (u : ℕ) (result : LoginRes)
      → decode read_buf ≡ some (got, true)
      → Carries got rsp_name payload
      → length payload < 2 ^ 32
      → create rsp_name ≡ some blank
      → rsp_of (parse payload blank) ≡ some result
      → Client.on_read_body create parse (Answers.ready rsp_of) (some u) read_buf
        ≡ some (true, rsp_task u result ∷ [])
  unfolding Client.on_read_body process
  client_read rsp_of u result valid carries small created parsed =
      rw
        (
          valid,
          dispatch-Carries create parse (Answers.ready rsp_of) got u rsp_name payload refl small
              carries,
          find-rsp rsp_of,
          created,
          parsed,
        )
        refl
