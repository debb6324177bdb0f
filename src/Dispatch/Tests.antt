-- ===== src/Dispatch/Tests.antt =====
-- A table with one handler, for the login requests.
use fighting_card.Base.{ℕ, ◌≡◌, refl, true, Option, some, List, [], ◌∷◌, arith, if◌then◌else◌}
use fighting_card.Base.Text.{Text, text_eq}
use fighting_card.Base.Dict.{find, text_Eq}
use fighting_card.Message.Samples.{login, login_name, login_payload, login-IsWire}
use fighting_card.UserBuffer
use fighting_card.UserBuffer.{UserBuffer}
use fighting_card.PipeBuffer
use fighting_card.PipeBuffer.{PipeBuffer}
use fighting_card.Dispatch.{Handler, Processor, add_handler, dispatch, pipe_head}
use fighting_card.Dispatch.Handled.{add_handler_lem, handled, dispatch-encode, pipe_head-encode}

-- A message is its bytes, and what is posted is the session with them.
abbrev login_handler : Handler ℕ (List ℕ) (List ℕ) (ℕ × List ℕ)
login_handler = record {
  full_name = login_name;
  cast = λ msg. some msg;
  func = λ session msg. (session, msg);
}

abbrev empty_table : Processor ℕ (List ℕ) (List ℕ) (ℕ × List ℕ)
empty_table = record { io_service = true; handlers = [] }

abbrev table : Processor ℕ (List ℕ) (List ℕ) (ℕ × List ℕ)
table = record empty_table { handlers = (login_name, login_handler) ∷ [] }

abbrev create : Text → Option (List ℕ)
create name = some []

abbrev parse : List ℕ → List ℕ → List ℕ
parse bytes msg = bytes

add_handler_lem_example :
    (q : Processor ℕ (List ℕ) (List ℕ) (ℕ × List ℕ)) × (add_handler login_handler empty_table
      ≡ some q)
    × (q.io_service ≡ true)
    × ((j : Text)
        → find j q.handlers
          ≡ (if text_eq login_name j then some login_handler else find j empty_table.handlers))
add_handler_lem_example = add_handler_lem login_handler empty_table refl (unfold find in refl)

dispatch-encode_example :
    (sent got : UserBuffer) × (UserBuffer.encode login UserBuffer.fresh ≡ some sent)
    × (UserBuffer.decode sent ≡ some (got, true))
    × (dispatch create parse table got 4
        ≡ some (handled create parse (find login_name table.handlers) login_payload 4))
dispatch-encode_example =
    dispatch-encode create parse table 4 login login_payload UserBuffer.fresh refl login-IsWire
      (omega arith) (omega arith) (omega arith)

abbrev appid : Text
appid = 97 ∷ 98 ∷ []

pipe_head-encode_example :
    (sent got : PipeBuffer) × (PipeBuffer.encode 9 appid [] login PipeBuffer.fresh ≡ some sent)
    × (PipeBuffer.decode sent ≡ some (got, true))
    × (pipe_head got ≡ some (record { session_id = 9; appid = []; user_id = [] }))
pipe_head-encode_example =
    pipe_head-encode 9 appid [] login login_payload PipeBuffer.fresh (omega arith) (omega arith)
      (omega arith) (omega arith) (omega arith) (omega arith) (omega arith) (omega arith)
      login-IsWire
