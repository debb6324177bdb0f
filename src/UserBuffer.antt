-- ===== src/UserBuffer.antt =====
-- common/user_buffer.h and common/user_buffer.cpp: the frames between client and server.
pub mod Frame
pub mod RoundTrip
pub mod Total
pub mod Tests
use fighting_card.Base.{
  ℕ, ◌+◌, ◌-◌, ◌^◌, Bool, true, false, Option, some, List, [], ◌∷◌, ltb, ◌==◌, if◌then◌else◌,
  length, take, ◌>>=◌,
}
use fighting_card.Base.Word.{u8, u16, u64}
use fighting_card.Buffer.{user_layout, store, load_byte, cleared, get_body_size, set_body_size}
use fighting_card.Buffer.Memory.{Mem}
use fighting_card.Buffer.Words.{to_le}
use fighting_card.Buffer.Pointer.{Pointer, indeterminate, offset}
use fighting_card.Message.{Message, c_str, serialize}

-- `msg_data_size` too is indeterminate at first; nothing reads it before `decode` sets it.
pub record UserBuffer : Type 0 where
  pub mem : Mem
  pub msg_name_size : Pointer
  pub msg_name : Pointer
  pub msg_data : Pointer
  pub check_sum : Pointer
  pub msg_data_size : ℕ

unfoldable pub fresh : UserBuffer
fresh = record {
  mem = cleared user_layout;
  msg_name_size = indeterminate;
  msg_name = indeterminate;
  msg_data = indeterminate;
  check_sum = indeterminate;
  msg_data_size = 0;
}

unfoldable pub encode : Message → UserBuffer → Option UserBuffer
encode msg b = do
  let msg_name_size = u8 (length msg.type_name + 1)
  let msg_data_size = u16 msg.byte_size
  let body_size = u16 (1 + msg_name_size + msg_data_size + 4)
  sized ← store user_layout 0 (to_le 2 body_size) b.mem
  counted ← store user_layout 2 (msg_name_size ∷ []) sized
  named ← store user_layout 3 (take msg_name_size (c_str msg.type_name)) counted
  filled ← serialize user_layout msg (3 + msg_name_size) msg_data_size named
  some (record b { mem = set_body_size user_layout body_size filled })

-- `UserBuffer(proto_msg)`.
unfoldable pub of_message : Message → Option UserBuffer
of_message msg = encode msg fresh

-- The size of the data is computed in `int` and converted to `size_t`.
unfoldable pub decode : UserBuffer → Option (UserBuffer × Bool)
decode b = do
  msg_name_size ← load_byte user_layout 2 b.mem
  if ltb msg_name_size 2 then some (b, false) else do
    last ← load_byte user_layout (3 + msg_name_size - 1) b.mem
    let data_size = u64 (get_body_size user_layout b.mem + 2 ^ 64 - 1 - msg_name_size - 4)
    if last == 0
        then some (
          record b {
            msg_name = offset 3;
            msg_data = offset (3 + msg_name_size);
            msg_data_size = data_size;
            check_sum = offset (u64 (3 + msg_name_size + data_size));
          },
          true,
        )
        else some (record b { msg_name = offset 3 }, false)
