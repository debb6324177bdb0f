-- ===== src/UserBuffer/Frame.antt =====
-- The format of a frame as the comment of common/user_buffer.h gives it, without reference to the
-- code, and `UserBuffer::Encode` and `UserBuffer::Decode` against it.
use fighting_card.Base.{
  ℕ, suc, ◌+◌, ◌-◌, ◌^◌, ◌≤◌, ◌<◌, ◌≡◌, refl, true, some, List, [], ◌∷◌, arith, length,
  le→ltb-false,
}
use fighting_card.Base.Text.{Text}
use fighting_card.Base.Word.{u8, u16, u64}
use fighting_card.Buffer.{user_layout, get_body_size, set_body_size}
use fighting_card.Buffer.Access.{store-eq-some, load_byte-eq-some}
use fighting_card.Buffer.Memory.{Mem, write, write-outside}
use fighting_card.Buffer.Size.{get_body_size-set_body_size}
use fighting_card.Buffer.Pointer.{offset, c_str_last}
use fighting_card.Buffer.Words.{to_le, length-to_le}
use fighting_card.Message.{Message, IsWire, c_str, serialize-eq-some}
use fighting_card.Message.Tail.{
  IsTail, IsTail-shift, tail_written, tail_written-IsTail, length-c_str, take-c_str,
}
use fighting_card.UserBuffer.{UserBuffer, encode, decode}

-- The size counts the tail and the four bytes of the check sum.
pub record IsFrame (m : Mem) (name : Text) (payload : List ℕ) : Type 0 where
  pub sized : get_body_size user_layout m ≡ length name + length payload + 6
  pub tail : IsTail m 2 name payload

module _ (msg : Message) (payload : List ℕ) (b : UserBuffer) (w : IsWire msg payload)
    (short : length msg.type_name < 255)
    (fits : length msg.type_name + length payload ≤ 16380) where
  abbrev pub body_size : ℕ
  body_size = length msg.type_name + length payload + 6

  abbrev pub encoded : UserBuffer
  encoded = record b {
    mem =
        set_body_size user_layout body_size
          (tail_written 2 msg.type_name payload (write 0 (to_le 2 body_size) b.mem));
  }

  name_size : u8 (length msg.type_name + 1) ≡ suc (length msg.type_name)
  name_size = omega arith

  data_size : u16 msg.byte_size ≡ length payload
  data_size = omega (arith, w.sized)

  total_size : u16 (1 + suc (length msg.type_name) + length payload + 4) ≡ body_size
  total_size = omega arith

  data_start : 3 + suc (length msg.type_name) ≡ 2 + 2 + length msg.type_name
  data_start = omega arith

  pub encode_lem : encode msg b ≡ some encoded
  unfolding encode
  encode_lem =
      rw
        (
          name_size,
          data_size,
          total_size,
          data_start,
          store-eq-some user_layout 0 (to_le 2 body_size) _ (rw length-to_le (omega arith)),
          store-eq-some user_layout 2 (suc (length msg.type_name) ∷ []) _ (omega arith),
          take-c_str msg.type_name,
          store-eq-some user_layout 3 (c_str msg.type_name) _
              (omega (arith, length-c_str msg.type_name)),
          serialize-eq-some user_layout msg payload (2 + 2 + length msg.type_name) (length payload)
              _ w (omega arith) (omega arith),
        )
        refl

  -- What `encode` leaves in the buffer is a frame.
  pub encoded-IsFrame : IsFrame encoded.mem msg.type_name payload
  unfolding set_body_size
  encoded-IsFrame = record {
    sized = unfold_size;
    tail =
        IsTail-shift 2 2 msg.type_name payload written encoded.mem behind
          (tail_written-IsTail 2 msg.type_name payload headed);
  }
    where
      headed : Mem
      headed = write 0 (to_le 2 body_size) b.mem

      written : Mem
      written = tail_written 2 msg.type_name payload headed

      unfold_size : get_body_size user_layout encoded.mem ≡ body_size
      unfold_size = get_body_size-set_body_size user_layout body_size written (omega arith)

      behind :
          (j : ℕ)
          → j < 2 + length msg.type_name + length payload
          → encoded.mem (2 + j) ≡ written (2 + j)
      behind j lt =
          write-outside 0 (to_le 2 body_size) written (2 + j)
            (omega (arith, length-to_le 2 body_size))

module _ (name : Text) (payload : List ℕ) (b : UserBuffer) (frame : IsFrame b.mem name payload)
    (fits : length name + length payload ≤ 16380) (long : 1 ≤ length name) where
  abbrev pub decoded : UserBuffer
  decoded = record b {
    msg_name = offset 3;
    msg_data = offset (2 + 2 + length name);
    msg_data_size = length payload;
    check_sum = offset (2 + 2 + length name + length payload);
  }

  -- `decode` accepts every frame and points at its parts.
  pub decode_frame : decode b ≡ some (decoded, true)
  unfolding decode
  decode_frame =
      rw
        (
          load_byte-eq-some user_layout 2 b.mem (omega arith),
          frame.tail.counted,
          le→ltb-false (suc (length name)) 2 (omega arith),
          load_byte-eq-some user_layout (3 + suc (length name) - 1) b.mem (omega arith),
          c_str_last 3 (3 + suc (length name) - 1) name b.mem (omega arith) frame.tail.named,
          frame.sized,
          data_size,
          data_start,
        )
        (rw check_start refl)
    where
      data_size :
          u64 (length name + length payload + 6 + 2 ^ 64 - 1 - suc (length name) - 4)
          ≡ length payload
      data_size = omega arith

      data_start : 3 + suc (length name) ≡ 2 + 2 + length name
      data_start = omega arith

      check_start :
          u64 (2 + 2 + length name + length payload) ≡ 2 + 2 + length name + length payload
      check_start = omega arith
