-- ===== src/PipeBuffer/Overloads.antt =====
-- The overloads of `Encode` and the constructors of common/pipe_buffer.cpp, which pass fixed
-- arguments on.
use fighting_card.Base.{ℕ, Option, []}
use fighting_card.Base.Text.{Text}
use fighting_card.Message.{Message}
use fighting_card.UserBuffer.{UserBuffer}
use fighting_card.PipeBuffer.{PipeBuffer, fresh, encode, encode_user}

-- `Encode(session_id, proto_msg)`, `Encode(proto_msg)` and `Encode(session_id, user_buf)`.
unfoldable pub encode_session : ℕ → Message → PipeBuffer → Option PipeBuffer
encode_session session_id msg b = encode session_id [] [] msg b

unfoldable pub encode_message : Message → PipeBuffer → Option PipeBuffer
encode_message msg b = encode 0 [] [] msg b

unfoldable pub encode_session_user : ℕ → UserBuffer → PipeBuffer → Option PipeBuffer
encode_session_user session_id user_buf b = encode_user session_id [] [] user_buf b

-- The constructors.
unfoldable pub of_message : Message → Option PipeBuffer
of_message msg = encode_message msg fresh

unfoldable pub of_session : ℕ → Message → Option PipeBuffer
of_session session_id msg = encode_session session_id msg fresh

unfoldable pub of_ids : ℕ → Text → Text → Message → Option PipeBuffer
of_ids session_id appid user_id msg = encode session_id appid user_id msg fresh

unfoldable pub of_session_user : ℕ → UserBuffer → Option PipeBuffer
of_session_user session_id user_buf = encode_user session_id [] [] user_buf fresh

unfoldable pub of_ids_user : ℕ → Text → Text → UserBuffer → Option PipeBuffer
of_ids_user session_id appid user_id user_buf = encode_user session_id appid user_id user_buf fresh
