-- ===== src/PipeBuffer/Forward.antt =====
-- A user frame forwarded between servers: `Encode(.., user_buf)` and `Decode(UserBuffer*)`.
use fighting_card.Base.{
  ℕ, ◌+◌, ◌-◌, ◌^◌, ◌≤◌, ◌<◌, ◌≡◌, ◌≢◌, ◌∙◌, refl, sym, ap, true, some, none, List, arith, length,
  All,
}
use fighting_card.Base.Text.{Text}
use fighting_card.Base.Word.{u16, u32}
use fighting_card.Buffer.{user_layout, pipe_layout, get_body_size, set_body_size}
use fighting_card.Buffer.Access.{store-eq-some, store-eq-none, load-eq-some}
use fighting_card.Buffer.Memory.{
  Mem, write, read, write-outside, read-write_self, read-write_len, read-shift, length-read,
}
use fighting_card.Buffer.Size.{get_body_size-set_body_size}
use fighting_card.Buffer.Words.{to_le, length-to_le}
use fighting_card.UserBuffer.{UserBuffer}
use fighting_card.PipeBuffer.{PipeBuffer, encode_user, decode_user}
use fighting_card.PipeBuffer.Head.{
  IsHead, IsHead-keep, head_end, head_written, head_written-IsHead, headed, encode_head_lem,
  decode_head_lem, id_size-le, ReadsHead, headed-ReadsHead,
}

-- The format: the head, then the body of the user frame; the size counts both.
pub record IsForward (m : Mem) (session_id : ℕ) (appid user_id : Text) (body : List ℕ)
    : Type 0 where
  pub sized : get_body_size pipe_layout m ≡ head_end appid user_id - 4 + length body
  pub head : IsHead m session_id appid user_id
  pub body_read : read (head_end appid user_id) (length body) m ≡ body

module _ (session_id : ℕ) (appid user_id : Text) (app_short : length appid < 255)
    (user_short : length user_id < 255) where
  abbrev end : ℕ
  end = head_end appid user_id

  end-le : end ≤ 522
  end-le = omega (arith, id_size-le appid, id_size-le user_id)

  module _ (b : PipeBuffer) (word : session_id < 2 ^ 32) (body : List ℕ)
      (fits : length body ≤ 16382) where
    abbrev copied : Mem
    copied = write end body (head_written session_id appid user_id b.mem)

    abbrev pub forwarded_mem : Mem
    forwarded_mem = set_body_size pipe_layout (end - 4 + length body) copied

    forwarded-copied : (i : ℕ) → 4 ≤ i → forwarded_mem i ≡ copied i
    unfolding set_body_size
    forwarded-copied i h =
        write-outside 0 (to_le 4 (end - 4 + length body)) copied i
          (omega (arith, length-to_le 4 (end - 4 + length body)))

    pub forwarded-IsForward : IsForward forwarded_mem session_id appid user_id body
    forwarded-IsForward = record {
      sized =
          get_body_size-set_body_size pipe_layout (end - 4 + length body) copied
            (omega (arith, end-le));
      head =
          IsHead-keep session_id appid user_id (head_written session_id appid user_id b.mem) _
            (λ i lo hi. forwarded-copied i lo ∙ write-outside end body _ i (omega arith))
            (head_written-IsHead session_id appid user_id word b.mem);
      body_read =
          read-shift end end (length body) copied _
            (λ j lt. forwarded-copied (end + j) (omega arith))
          ∙ read-write_self end body _;
    }

    abbrev pub forwarded : PipeBuffer
    forwarded = record (headed session_id appid user_id b app_short user_short) {
      mem = forwarded_mem;
    }

    pub encode_user_lem :
        (u : UserBuffer)
        → get_body_size user_layout u.mem ≡ length body
        → read 2 (length body) u.mem ≡ body
        → encode_user session_id appid user_id u b ≡ some forwarded
    unfolding encode_user
    encode_user_lem u sized body_read =
        rw
          (
            encode_head_lem session_id appid user_id b app_short user_short,
            sized,
            load-eq-some user_layout 2 (length body) u.mem (omega arith),
            body_read,
            store-eq-some pipe_layout end body _ (omega (arith, end-le)),
            total,
          )
          refl
      where
        total : u32 (end - 4 + length body) ≡ end - 4 + length body
        total = omega (arith, end-le)

  module _ (b : PipeBuffer) (u : UserBuffer) (body : List ℕ)
      (h : IsForward b.mem session_id appid user_id body) where
    body_size :
        length body < 2 ^ 16
        → u32 (get_body_size pipe_layout b.mem + 2 ^ 32 - (end - 4)) ≡ length body
    body_size small = omega (arith, h.sized, end-le)

    abbrev pub delivered : UserBuffer
    delivered = record u { mem = set_body_size user_layout (length body) (write 2 body u.mem) }

    pub decode_user_lem :
        length body ≤ 16382
        → decode_user u b
          ≡ some (headed session_id appid user_id b app_short user_short, delivered, true)
    unfolding decode_user
    decode_user_lem fits =
        rw
          (
            decode_head_lem session_id appid user_id b app_short user_short h.head,
            body_size (omega arith),
            load-eq-some pipe_layout end (length body) b.mem (omega (arith, end-le)),
            h.body_read,
            store-eq-some user_layout 2 body u.mem (omega arith),
            small,
          )
          refl
      where
        small : u16 (length body) ≡ length body
        small = omega arith

    -- A forwarded body that the user buffer has no room for is written past its end.
    pub decode_user_overflow : 16382 < length body → length body < 2 ^ 16 → decode_user u b ≡ none
    unfolding decode_user
    decode_user_overflow big small =
        rw
          (
            decode_head_lem session_id appid user_id b app_short user_short h.head,
            body_size small,
            load-eq-some pipe_layout end (length body) b.mem (omega (arith, end-le)),
            h.body_read,
            store-eq-none user_layout 2 body u.mem (omega arith),
          )
          refl

-- A body put behind a user header.
module _ (n : ℕ) (body : List ℕ) (m : Mem) (len : length body ≡ n)
    (fits : length body ≤ 16382) where
  framed-size :
      get_body_size user_layout (set_body_size user_layout (length body) (write 2 body m)) ≡ n
  framed-size = get_body_size-set_body_size user_layout (length body) _ (omega arith) ∙ len

  framed-body : read 2 n (set_body_size user_layout (length body) (write 2 body m)) ≡ body
  unfolding set_body_size
  framed-body =
      read-shift 2 2 n (write 2 body m) _ (λ j lt.
        write-outside 0 (to_le 2 (length body)) _ (2 + j)
          (omega (arith, length-to_le 2 (length body))))
      ∙ read-write_len 2 n body m len

-- A user frame that goes through a pipe frame comes out with the same size and the same body, and
-- the receiver reads the session and the ids that the sender wrote. The ids have at most 254
-- bytes and no NUL, the body fits the array of a user buffer.
pub decode_user-encode_user :
    (session_id : ℕ) (appid user_id : Text) (u out : UserBuffer) (b : PipeBuffer)
    → session_id < 2 ^ 32
    → length appid < 255
    → length user_id < 255
    → All (λ c. c ≢ 0) appid
    → All (λ c. c ≢ 0) user_id
    → get_body_size user_layout u.mem ≤ 16382
    → (sent got : PipeBuffer) × (delivered : UserBuffer) × (encode_user session_id appid user_id u b
        ≡ some sent)
      × (decode_user out sent ≡ some (got, delivered, true))
      × ReadsHead got session_id appid user_id
      × (get_body_size user_layout delivered.mem ≡ get_body_size user_layout u.mem)
      × (read 2 (get_body_size user_layout u.mem) delivered.mem
          ≡ read 2 (get_body_size user_layout u.mem) u.mem)
decode_user-encode_user session_id appid user_id u out b word app_short user_short app_named
      user_named fits =
    (
      sent,
      headed session_id appid user_id sent app_short user_short,
      delivered session_id appid user_id app_short user_short sent out body forward,
      encode_user_lem session_id appid user_id app_short user_short b word body fits' u (sym len)
          (ap (λ n. read 2 n u.mem) len),
      decode_user_lem session_id appid user_id app_short user_short sent out body forward fits',
      headed-ReadsHead session_id appid user_id sent app_short user_short app_named user_named
          forward.head,
      framed-size n body out.mem len fits',
      framed-body n body out.mem len fits',
    )
  where
    n : ℕ
    n = get_body_size user_layout u.mem

    body : List ℕ
    body = read 2 n u.mem

    len : length body ≡ n
    len = length-read 2 n u.mem

    fits' : length body ≤ 16382
    fits' = omega (arith, len)

    sent : PipeBuffer
    sent = forwarded session_id appid user_id app_short user_short b word body fits'

    forward : IsForward sent.mem session_id appid user_id body
    forward = forwarded-IsForward session_id appid user_id app_short user_short b word body fits'
