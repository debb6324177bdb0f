-- ===== src/PipeBuffer/Tests.antt =====
-- A login request of user "7" of application "ab" in session 9, direct and forwarded.
use fighting_card.Base.{◌+◌, ◌≡◌, true, some, [], ◌∷◌, arith}
use fighting_card.Base.Text.{Text}
use fighting_card.Buffer.{user_layout, cleared, get_body_size}
use fighting_card.Buffer.Memory.{write, read}
use fighting_card.Buffer.Words.{of_le}
use fighting_card.Message.Samples.{login, login_name, login_payload, login-IsWire}
use fighting_card.UserBuffer
use fighting_card.UserBuffer.{UserBuffer}
use fighting_card.PipeBuffer.{PipeBuffer, fresh, encode, decode, encode_user, decode_user}
use fighting_card.PipeBuffer.Head.{ReadsHead}
use fighting_card.PipeBuffer.RoundTrip.{Carries, decode-encode_oversize}
use fighting_card.PipeBuffer.Forward.{decode_user-encode_user}

abbrev appid : Text
appid = 97 ∷ 98 ∷ []

abbrev user_id : Text
user_id = 55 ∷ []

decode-encode_oversize_example :
    (sent got : PipeBuffer) × (encode 9 appid user_id login fresh ≡ some sent)
    × (decode sent ≡ some (got, true))
    × ReadsHead got 9 appid user_id
    × Carries got login_name login_payload
    × (got.msg_data_size ≡ 5 + (6 + 3 + 2))
decode-encode_oversize_example =
    decode-encode_oversize 9 appid user_id login login_payload fresh (omega arith) (omega arith)
      (omega arith) (omega arith) (omega arith) (omega arith) (omega arith) (omega arith)
      login-IsWire

-- A user frame with a body of three bytes.
abbrev small_frame : UserBuffer
small_frame = record UserBuffer.fresh {
  mem = write 0 (3 ∷ 0 ∷ 7 ∷ 8 ∷ 9 ∷ []) (cleared user_layout);
}

decode_user-encode_user_example :
    (sent got : PipeBuffer) × (delivered : UserBuffer) × (encode_user 9 appid user_id small_frame
        fresh
      ≡ some sent)
    × (decode_user UserBuffer.fresh sent ≡ some (got, delivered, true))
    × ReadsHead got 9 appid user_id
    × (get_body_size user_layout delivered.mem ≡ 3)
    × (read 2 3 delivered.mem ≡ 7 ∷ 8 ∷ 9 ∷ [])
unfolding get_body_size read write of_le
decode_user-encode_user_example =
    decode_user-encode_user 9 appid user_id small_frame UserBuffer.fresh fresh (omega arith)
      (omega arith) (omega arith) (omega arith) (omega arith) (omega arith)
