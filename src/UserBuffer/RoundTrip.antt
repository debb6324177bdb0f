-- ===== src/UserBuffer/RoundTrip.antt =====
-- What a receiver reads out of a frame is what the sender put in.
use fighting_card.Base.{ℕ, ◌+◌, ◌-◌, ◌≤◌, ◌<◌, ◌≡◌, ◌≢◌, true, some, List, arith, length, All, refl}
use fighting_card.Base.Text.{Text}
use fighting_card.Buffer.{user_layout}
use fighting_card.Buffer.Access.{load-eq-some}
use fighting_card.Buffer.Pointer.{c_string_at, bytes_at, c_string_lem}
use fighting_card.Message.{Message, IsWire}
use fighting_card.UserBuffer.{UserBuffer, encode, decode}
use fighting_card.UserBuffer.Frame.{
  IsFrame, encoded, encode_lem, encoded-IsFrame, decoded, decode_frame,
}

-- What `Dispatch` takes out of a decoded buffer: the name, and the bytes of the message.
pub record Carries (b : UserBuffer) (name : Text) (payload : List ℕ) : Type 0 where
  pub name_read : c_string_at user_layout b.msg_name b.mem ≡ some name
  pub size_read : b.msg_data_size ≡ length payload
  pub data_read : bytes_at user_layout b.msg_data b.msg_data_size b.mem ≡ some payload

pub decoded-Carries :
    (name : Text) (payload : List ℕ) (b : UserBuffer) (frame : IsFrame b.mem name payload)
    (fits : length name + length payload ≤ 16380) (long : 1 ≤ length name)
    → All (λ c. c ≢ 0) name
    → Carries (decoded name payload b frame fits long) name payload
unfolding c_string_at bytes_at
decoded-Carries name payload b frame fits long named = record {
  name_read = c_string_lem (16384 - 3) 3 name b.mem named (omega arith) frame.tail.named;
  size_read = refl;
  data_read =
      rw (load-eq-some user_layout (2 + 2 + length name) (length payload) b.mem (omega arith))
        (rw frame.tail.filled);
}

-- A message with a type name of 1 to 254 bytes that fits the array is encoded, the result is
-- accepted by `decode`, and the name and the bytes read from it are the message's.
pub decode-encode :
    (msg : Message) (payload : List ℕ) (b : UserBuffer)
    → IsWire msg payload
    → 1 ≤ length msg.type_name
    → length msg.type_name < 255
    → length msg.type_name + length payload ≤ 16380
    → (sent got : UserBuffer) × (encode msg b ≡ some sent)
      × (decode sent ≡ some (got, true))
      × Carries got msg.type_name payload
decode-encode msg payload b w long short fits = (
  sent,
  decoded msg.type_name payload sent frame fits long,
  encode_lem msg payload b w short fits,
  decode_frame msg.type_name payload sent frame fits long,
  decoded-Carries msg.type_name payload sent frame fits long w.named,
)
  where
    sent : UserBuffer
    sent = encoded msg payload b w short fits

    frame : IsFrame sent.mem msg.type_name payload
    frame = encoded-IsFrame msg payload b w short fits
