-- ===== src/Server/Session/Tests.antt =====
-- The login request of user "7", and a message without a handler.
use fighting_card.Base.{ℕ, ◌≡◌, refl, Bool, true, false, Option, some, List, [], ◌∷◌, arith}
use fighting_card.Base.Text.{Text}
use fighting_card.Base.Dict.{find}
use fighting_card.Message.Samples.{
  of_payload, of_payload-IsWire, login, login_payload, login-IsWire,
}
use fighting_card.UserBuffer
use fighting_card.UserBuffer.{UserBuffer}
use fighting_card.Server.{UserSession, Logic, find_user, normal, LoginReq, Task, run, init}
use fighting_card.Server.Logins.{is_user, uid_of}
use fighting_card.Server.Session.{on_read_body}
use fighting_card.Server.Session.Requests.{ready, unknown_refused, login_arrives}

abbrev uid : Text
uid = 55 ∷ []

abbrev request : LoginReq
request = record { type = normal; uid = uid; token = [] }

-- A dynamic message is its bytes.
abbrev login_of : List ℕ → Option LoginReq
login_of msg = some request

abbrev ping_of : List ℕ → Bool
ping_of msg = true

abbrev create : Text → Option (List ℕ)
create name = some []

abbrev parse : List ℕ → List ℕ → List ℕ
parse bytes msg = bytes

abbrev session : UserSession
session = record { session_id = 1; authed = false; user_id = []; last_alive_time = 100 }

abbrev empty : Logic
empty = init (λ p. session) (λ p. true)

login_arrives_example :
    (sent : UserBuffer) × (posted : List Task) × (UserBuffer.encode login UserBuffer.fresh
      ≡ some sent)
    × (on_read_body create parse (ready login_of ping_of) 103 4 sent session
        ≡ some (record session { last_alive_time = 103 }, true, posted))
    × (is_user uid (run empty posted) ≡ true)
    × (uid_of (run empty posted) 4 ≡ uid)
    × (((run empty posted).sessions 4).authed ≡ true)
login_arrives_example =
    login_arrives login_of ping_of create parse 103 4 session login login_payload UserBuffer.fresh
      login-IsWire (omega arith) (omega arith) (omega arith) [] request empty refl refl refl refl
      (unfold init in unfold find_user in unfold find in refl)

-- "x.Y"
abbrev other_name : Text
other_name = 120 ∷ 46 ∷ 89 ∷ []

unknown_refused_example :
    (sent : UserBuffer) × (UserBuffer.encode (of_payload other_name []) UserBuffer.fresh
      ≡ some sent)
    × (on_read_body create parse (ready login_of ping_of) 103 4 sent session
        ≡ some (record session { last_alive_time = 103 }, false, []))
unknown_refused_example =
    unknown_refused login_of ping_of create parse 103 4 session (of_payload other_name []) []
      UserBuffer.fresh (of_payload-IsWire other_name [] (omega arith)) (omega arith) (omega arith)
      (omega arith) (λ e. cc e) (λ e. cc e)
