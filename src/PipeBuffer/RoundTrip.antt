-- ===== src/PipeBuffer/RoundTrip.antt =====
-- A message sent between servers: `Encode(.., proto_msg)` and `Decode()`.
use fighting_card.Base.{
  ℕ, suc, ◌+◌, ◌-◌, ◌*◌, ◌^◌, ◌≤◌, ◌<◌, ◌≡◌, ◌≢◌, refl, true, some, List, [], ◌∷◌, arith, length,
  All, pos→==-false,
}
use fighting_card.Base.Text.{Text}
use fighting_card.Base.Word.{u8, u32}
use fighting_card.Buffer.{pipe_layout}
use fighting_card.Buffer.Access.{store-eq-some, load-eq-some}
use fighting_card.Buffer.Pointer.{c_string_at, c_string_lem, bytes_at}
use fighting_card.Message.{Message, IsWire, serialize-eq-some}
use fighting_card.PipeBuffer.{PipeBuffer, encode, decode}
use fighting_card.PipeBuffer.Ids.{id_size}
use fighting_card.PipeBuffer.Head.{
  head_end, headed, encode_head_lem, id_size-le, ReadsHead, headed-ReadsHead,
}
use fighting_card.PipeBuffer.Direct.{
  IsDirect, put_name_lem, encoded, encoded-IsDirect, decoded, decode_lem,
}

module _ (session_id : ℕ) (appid user_id : Text) (msg : Message) (payload : List ℕ)
    (app_short : length appid < 255) (user_short : length user_id < 255)
    (long : 1 ≤ length msg.type_name) (short : length msg.type_name < 255)
    (fits : length payload ≤ 500 * 1024) (b : PipeBuffer) (w : IsWire msg payload) where
  abbrev at : ℕ
  at = head_end appid user_id

  name_size : u8 (length msg.type_name + 1) ≡ suc (length msg.type_name)
  name_size = omega arith

  total_size :
      u32 (at - 4 + 1 + suc (length msg.type_name) + msg.byte_size + 4)
      ≡ at - 4 + (length msg.type_name + length payload + 6)
  total_size = omega (arith, w.sized, id_size-le appid, id_size-le user_id)

  data_start : at + 1 + suc (length msg.type_name) ≡ at + 2 + length msg.type_name
  data_start = omega arith

  pub encode_lem :
      encode session_id appid user_id msg b
      ≡ some (
          encoded session_id appid user_id msg.type_name payload app_short user_short long short
            fits b)
  unfolding encode
  encode_lem =
      rw
        (
          encode_head_lem session_id appid user_id b app_short user_short,
          pos→==-false (length msg.type_name) long,
          name_size,
          store-eq-some pipe_layout at (suc (length msg.type_name) ∷ []) _
              (omega (arith, id_size-le appid, id_size-le user_id)),
          put_name_lem msg.type_name (at + 1) _
              (omega (arith, id_size-le appid, id_size-le user_id)) short,
          total_size,
          data_start,
          serialize-eq-some pipe_layout msg payload (at + 2 + length msg.type_name) msg.byte_size _
              w (omega (arith, w.sized)) (omega (arith, id_size-le appid, id_size-le user_id)),
        )
        refl

-- What `Dispatch` takes out of a decoded pipe buffer.
pub record Carries (b : PipeBuffer) (name : Text) (payload : List ℕ) : Type 0 where
  pub name_read : c_string_at pipe_layout b.msg_name b.mem ≡ some name
  pub data_read : bytes_at pipe_layout b.msg_data (length payload) b.mem ≡ some payload

-- A message whose name and ids fit their size bytes, and whose wire form has at most 500 KiB, is
-- encoded, the result is accepted by `decode`, and session, ids, name and bytes are read from it
-- as they were put in. But `msg_data_size` is too large: it counts the session, the two ids and
-- their size bytes as data.
pub decode-encode_oversize :
    (session_id : ℕ) (appid user_id : Text) (msg : Message) (payload : List ℕ) (b : PipeBuffer)
    → session_id < 2 ^ 32
    → length appid < 255
    → length user_id < 255
    → All (λ c. c ≢ 0) appid
    → All (λ c. c ≢ 0) user_id
    → 1 ≤ length msg.type_name
    → length msg.type_name < 255
    → length payload ≤ 500 * 1024
    → IsWire msg payload
    → (sent got : PipeBuffer) × (encode session_id appid user_id msg b ≡ some sent)
      × (decode sent ≡ some (got, true))
      × ReadsHead got session_id appid user_id
      × Carries got msg.type_name payload
      × (got.msg_data_size ≡ length payload + (6 + id_size appid + id_size user_id))
unfolding c_string_at bytes_at
decode-encode_oversize session_id appid user_id msg payload b word app_short user_short app_named
      user_named long short fits w =
    (
      sent,
      decoded session_id appid user_id name payload app_short user_short long short fits sent
          direct,
      encode_lem session_id appid user_id msg payload app_short user_short long short fits b w,
      decode_lem session_id appid user_id name payload app_short user_short long short fits sent
          direct,
      record {
        session_at = heads.session_at;
        session_read = heads.session_read;
        app_read = heads.app_read;
        user_read = heads.user_read;
      },
      record {
        name_read =
            c_string_lem (512 * 1024 - (at' + 1)) (at' + 1) name sent.mem w.named
              (omega (arith, id_size-le appid, id_size-le user_id)) direct.tail.named;
        data_read =
            rw
              (load-eq-some pipe_layout (at' + 2 + length name) (length payload) sent.mem
                (omega (arith, id_size-le appid, id_size-le user_id)))
              (rw direct.tail.filled);
      },
      omega arith,
    )
  where
    name : Text
    name = msg.type_name

    at' : ℕ
    at' = head_end appid user_id

    sent : PipeBuffer
    sent = encoded session_id appid user_id name payload app_short user_short long short fits b

    direct : IsDirect sent.mem session_id appid user_id name payload
    direct =
        encoded-IsDirect session_id appid user_id name payload app_short user_short long short fits
          b word

    heads :
        ReadsHead
          (headed session_id appid user_id sent app_short user_short)
          session_id
          appid
          user_id
    heads =
        headed-ReadsHead session_id appid user_id sent app_short user_short app_named user_named
          direct.head
