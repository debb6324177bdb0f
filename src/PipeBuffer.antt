-- ===== src/PipeBuffer.antt =====
-- common/pipe_buffer.h and common/pipe_buffer.cpp: the frames between servers, which carry the
-- session, the application and the user before the message. The two `Encode`s and the two
-- `Decode`s each repeat the same text for the head; here it is written once.
pub mod Overloads
pub mod Ids
pub mod Head
pub mod Forward
pub mod Direct
pub mod RoundTrip
pub mod Tests
use fighting_card.Base.{
  ℕ, ◌+◌, ◌-◌, ◌^◌, Bool, true, false, Option, some, List, [], ◌∷◌, ltb, ◌==◌, if◌then◌else◌,
  length, take, ◌>>=◌,
}
use fighting_card.Base.Text.{Text}
use fighting_card.Base.Word.{u8, u16, u32, u64}
use fighting_card.Buffer.{
  user_layout, pipe_layout, store, load, load_byte, cleared, get_body_size, set_body_size,
}
use fighting_card.Buffer.Memory.{Mem}
use fighting_card.Buffer.Words.{to_le}
use fighting_card.Buffer.Pointer.{Pointer, indeterminate, null, offset}
use fighting_card.Message.{Message, c_str, serialize}
use fighting_card.UserBuffer.{UserBuffer}

pub record PipeBuffer : Type 0 where
  pub mem : Mem
  pub session_id : Pointer
  pub appid : Pointer
  pub user_id : Pointer
  pub msg_name_size : Pointer
  pub msg_name : Pointer
  pub msg_data : Pointer
  pub check_sum : Pointer
  pub msg_data_size : ℕ

unfoldable pub fresh : PipeBuffer
fresh = record {
  mem = cleared pipe_layout;
  session_id = indeterminate;
  appid = indeterminate;
  user_id = indeterminate;
  msg_name_size = indeterminate;
  msg_name = indeterminate;
  msg_data = indeterminate;
  check_sum = indeterminate;
  msg_data_size = 0;
}

-- An id as its size byte, at `off`, and its bytes: the array, the member's pointer, and the size.
unfoldable pub put_id : Text → ℕ → Mem → Option (Mem × Pointer × ℕ)
put_id id off m =
    if length id == 0
    then (do
      sized ← store pipe_layout off (u8 (length id) ∷ []) m
      some (sized, null, u8 (length id)))
    else do
      let size = u8 (length id + 1)
      sized ← store pipe_layout off (size ∷ []) m
      copied ← store pipe_layout (off + 1) id sized
      ended ← store pipe_layout (off + 1 + size - 1) (0 ∷ []) copied
      some (ended, offset (off + 1), size)

-- The head of a frame, and the offset behind it. The body starts at 4.
unfoldable pub encode_head : ℕ → Text → Text → PipeBuffer → Option (PipeBuffer × ℕ)
encode_head session_id appid user_id b = do
  started ← store pipe_layout 4 (to_le 4 session_id) b.mem
  (with_appid, appid_ptr, appid_size) ← put_id appid 8 started
  (with_user, user_ptr, user_id_size) ← put_id user_id (4 + 4 + 1 + appid_size) with_appid
  some (
    record b { mem = with_user; session_id = offset 4; appid = appid_ptr; user_id = user_ptr },
    4 + 4 + 1 + appid_size + 1 + user_id_size,
  )

-- The type name and the NUL behind it, when the size byte is not 0.
unfoldable pub put_name : ℕ → Text → ℕ → Mem → Option Mem
put_name size name off m = if size == 0 then some m else do
  named ← store pipe_layout off (take size (c_str name)) m
  store pipe_layout (off + size - 1) (0 ∷ []) named

unfoldable pub encode : ℕ → Text → Text → Message → PipeBuffer → Option PipeBuffer
encode session_id appid user_id msg b = do
  (headed, at) ← encode_head session_id appid user_id b
  let raw_size = length msg.type_name
  let size = u8 (if raw_size == 0 then raw_size else raw_size + 1)
  counted ← store pipe_layout at (size ∷ []) headed.mem
  named ← put_name size msg.type_name (at + 1) counted
  filled ← serialize pipe_layout msg (at + 1 + size) msg.byte_size named
  let body_size = u32 (at - 4 + 1 + size + msg.byte_size + 4)
  some (record headed {
    mem = set_body_size pipe_layout body_size filled;
    msg_name_size = offset at;
    msg_name = offset (at + 1);
    msg_data = offset (at + 1 + size);
  })

-- A user frame's body behind the head.
unfoldable pub encode_user : ℕ → Text → Text → UserBuffer → PipeBuffer → Option PipeBuffer
encode_user session_id appid user_id user_buf b = do
  (headed, at) ← encode_head session_id appid user_id b
  let user_size = get_body_size user_layout user_buf.mem
  body ← load user_layout 2 user_size user_buf.mem
  copied ← store pipe_layout at body headed.mem
  some (record headed { mem = set_body_size pipe_layout (u32 (at - 4 + user_size)) copied })

-- The size of an id, the member's pointer, and whether the id ends in NUL.
unfoldable pub get_id : ℕ → Mem → Option (ℕ × Pointer × Bool)
get_id off m = do
  size ← load_byte pipe_layout off m
  if size == 0 then some (size, null, true) else do
    last ← load_byte pipe_layout (off + 1 + size - 1) m
    some (size, offset (off + 1), last == 0)

-- The head of a frame: the buffer with its pointers, the offset behind the head, and whether
-- both ids are well formed.
unfoldable pub decode_head : PipeBuffer → Option (PipeBuffer × ℕ × Bool)
decode_head b = do
  (appid_size, appid_ptr, appid_ok) ← get_id 8 b.mem
  let with_appid = record b { session_id = offset 4; appid = appid_ptr }
  if appid_ok
      then (do
        (user_id_size, user_ptr, user_ok) ← get_id (4 + 4 + 1 + appid_size) b.mem
        some (
          record with_appid { user_id = user_ptr },
          4 + 4 + 1 + appid_size + 1 + user_id_size,
          user_ok,
        ))
      else some (with_appid, 0, false)

-- `Decode(UserBuffer*)`: what is behind the head becomes the body of a user frame.
unfoldable pub decode_user : UserBuffer → PipeBuffer → Option (PipeBuffer × UserBuffer × Bool)
decode_user user_buf b = do
  (headed, at, ok) ← decode_head b
  if ok
      then (do
        let user_size = u32 (get_body_size pipe_layout b.mem + 2 ^ 32 - (at - 4))
        body ← load pipe_layout at user_size b.mem
        copied ← store user_layout 2 body user_buf.mem
        some (
          headed,
          record user_buf { mem = set_body_size user_layout (u16 user_size) copied },
          true,
        ))
      else some (headed, user_buf, false)

-- `Decode()`. The size of the data leaves the session and the ids out of the subtraction.
unfoldable pub decode : PipeBuffer → Option (PipeBuffer × Bool)
decode b = do
  (headed, at, ok) ← decode_head b
  if ok
      then (do
        size ← load_byte pipe_layout at b.mem
        let counted = record headed { msg_name_size = offset at }
        if ltb size 2 then some (counted, false) else do
          last ← load_byte pipe_layout (at + 1 + size - 1) b.mem
          let named = record counted { msg_name = offset (at + 1) }
          if last == 0
              then some (
                record named {
                  msg_data = offset (at + 1 + size);
                  msg_data_size = u64 (get_body_size pipe_layout b.mem + 2 ^ 64 - 1 - size - 4);
                },
                true,
              )
              else some (named, false))
      else some (headed, false)
