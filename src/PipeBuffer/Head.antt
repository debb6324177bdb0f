-- ===== src/PipeBuffer/Head.antt =====
-- The head of a frame: the session, the application's id and the user's id.
use fighting_card.Base.{
  ℕ, ◌+◌, ◌-◌, ◌*◌, ◌^◌, ◌≤◌, ◌<◌, ◌≡◌, ◌≢◌, ◌⊎◌, ◌∙◌, refl, ap, true, some, [], ◌∷◌, arith, length,
  All,
}
use fighting_card.Base.Text.{Text}
use fighting_card.Buffer.{pipe_layout}
use fighting_card.Buffer.Access.{store-eq-some}
use fighting_card.Buffer.Memory.{Mem, write, read, write-outside, read-write_len, read-shift}
use fighting_card.Buffer.Pointer.{Pointer, null, offset, c_string_at, c_string_lem}
use fighting_card.Buffer.Words.{to_le, of_le, length-to_le, of_le-to_le}
use fighting_card.PipeBuffer.{PipeBuffer, encode_head, decode_head}
use fighting_card.PipeBuffer.Ids.{
  id_size, id_bytes, id_pointer, length-id_bytes, IsId, id_written, id_written-IsId, IsId-keep,
  put_id_lem, get_id_lem,
}

-- Where the head ends.
abbrev pub head_end : Text → Text → ℕ
head_end appid user_id = 4 + 4 + 1 + id_size appid + 1 + id_size user_id

pub record IsHead (m : Mem) (session_id : ℕ) (appid user_id : Text) : Type 0 where
  pub session : of_le (read 4 4 m) ≡ session_id
  pub app : IsId m 8 appid
  pub user : IsId m (4 + 4 + 1 + id_size appid) user_id

abbrev pub head_written : ℕ → Text → Text → Mem → Mem
head_written session_id appid user_id m =
    id_written (4 + 4 + 1 + id_size appid) user_id
      (id_written 8 appid (write 4 (to_le 4 session_id) m))

pub id_size-le : (id : Text) → id_size id ≤ length id + 1
id_size-le [] = omega arith
id_size-le (c ∷ t) = omega arith

-- An id writes its own bytes and no others.
pub id_written-outside :
    (off : ℕ) (id : Text) (m : Mem) (i : ℕ)
    → (i < off) ⊎ (off + 1 + id_size id ≤ i)
    → id_written off id m i ≡ m i
id_written-outside off id m i h =
    write-outside (off + 1) (id_bytes id) _ i (omega (arith, length-id_bytes id))
    ∙ write-outside off (id_size id ∷ []) m i (omega arith)

module _ (session_id : ℕ) (appid user_id : Text) where
  pub IsHead-keep :
      (m m' : Mem)
      → ((i : ℕ) → 4 ≤ i → i < head_end appid user_id → m' i ≡ m i)
      → IsHead m session_id appid user_id
      → IsHead m' session_id appid user_id
  IsHead-keep m m' same h = record {
    session =
        ap of_le (read-shift 4 4 4 m m' (λ j lt. same (4 + j) (omega arith) (omega arith)))
        ∙ h.session;
    app = IsId-keep 8 appid m m' (λ j lt. same (8 + j) (omega arith) (omega arith)) h.app;
    user =
        IsId-keep (4 + 4 + 1 + id_size appid) user_id m m'
          (λ j lt. same (4 + 4 + 1 + id_size appid + j) (omega arith) (omega arith)) h.user;
  }

  module _ (word : session_id < 2 ^ 32) (m : Mem) where
    abbrev started : Mem
    started = write 4 (to_le 4 session_id) m

    abbrev with_app : Mem
    with_app = id_written 8 appid started

    session_read : of_le (read 4 4 started) ≡ session_id
    session_read =
        ap of_le (read-write_len 4 4 (to_le 4 session_id) m (length-to_le 4 session_id))
        ∙ of_le-to_le 4 session_id word

    pub head_written-IsHead :
        IsHead (head_written session_id appid user_id m) session_id appid user_id
    head_written-IsHead = record {
      session =
          ap of_le (
            read-shift 4 4 4 started _ λ j lt.
              id_written-outside (4 + 4 + 1 + id_size appid) user_id with_app (4 + j) (omega arith)
              ∙ id_written-outside 8 appid started (4 + j) (omega arith))
          ∙ session_read;
      app =
          IsId-keep 8 appid with_app _
            (λ j lt.
              id_written-outside (4 + 4 + 1 + id_size appid) user_id with_app (8 + j) (omega arith))
            (id_written-IsId 8 appid started);
      user = id_written-IsId (4 + 4 + 1 + id_size appid) user_id with_app;
    }

  module _ (b : PipeBuffer) (app_short : length appid < 255)
      (user_short : length user_id < 255) where
    abbrev pub headed : PipeBuffer
    headed = record b {
      session_id = offset 4;
      appid = id_pointer 8 appid;
      user_id = id_pointer (4 + 4 + 1 + id_size appid) user_id;
    }

    pub encode_head_lem :
        encode_head session_id appid user_id b
        ≡ some (
          record headed { mem = head_written session_id appid user_id b.mem },
          head_end appid user_id,
        )
    unfolding encode_head
    encode_head_lem =
        rw
          (
            store-eq-some pipe_layout 4 (to_le 4 session_id) b.mem
                (omega (arith, length-to_le 4 session_id)),
            put_id_lem appid 8 (write 4 (to_le 4 session_id) b.mem) app_short (omega arith),
            put_id_lem user_id (4 + 4 + 1 + id_size appid) _ user_short
                (omega (arith, id_size-le appid)),
          )
          refl

    -- The head that was written is the head that is read.
    pub decode_head_lem :
        IsHead b.mem session_id appid user_id
        → decode_head b ≡ some (headed, head_end appid user_id, true)
    unfolding decode_head
    decode_head_lem h =
        rw
          (
            get_id_lem appid 8 b.mem app_short (omega arith) h.app,
            get_id_lem user_id (4 + 4 + 1 + id_size appid) b.mem user_short
                (omega (arith, id_size-le appid)) h.user,
          )
          refl

-- What a receiver reads through a member: an empty id is a null pointer.
abbrev pub ReadsId : Pointer → Mem → Text → Type 0
ReadsId p m [] = p ≡ null
ReadsId p m (c ∷ t) = c_string_at pipe_layout p m ≡ some (c ∷ t)

pub id_pointer-ReadsId :
    (id : Text) (off : ℕ) (m : Mem)
    → All (λ c. c ≢ 0) id
    → length id < 255
    → off + 512 ≤ 512 * 1024
    → IsId m off id
    → ReadsId (id_pointer off id) m id
unfolding c_string_at
id_pointer-ReadsId [] off m named short fits h = refl
id_pointer-ReadsId (c ∷ t) off m named short fits h =
    c_string_lem (512 * 1024 - (off + 1)) (off + 1) (c ∷ t) m named (omega arith) h.written

-- Session and ids as a receiver reads them.
pub record ReadsHead (b : PipeBuffer) (session_id : ℕ) (appid user_id : Text) : Type 0 where
  pub session_at : b.session_id ≡ offset 4
  pub session_read : of_le (read 4 4 b.mem) ≡ session_id
  pub app_read : ReadsId b.appid b.mem appid
  pub user_read : ReadsId b.user_id b.mem user_id

pub headed-ReadsHead :
    (session_id : ℕ) (appid user_id : Text) (b : PipeBuffer) (app_short : length appid < 255)
    (user_short : length user_id < 255)
    → All (λ c. c ≢ 0) appid
    → All (λ c. c ≢ 0) user_id
    → IsHead b.mem session_id appid user_id
    → ReadsHead (headed session_id appid user_id b app_short user_short) session_id appid user_id
headed-ReadsHead session_id appid user_id b app_short user_short app_named user_named h = record {
  session_at = refl;
  session_read = h.session;
  app_read = id_pointer-ReadsId appid 8 b.mem app_named app_short (omega arith) h.app;
  user_read =
      id_pointer-ReadsId user_id (4 + 4 + 1 + id_size appid) b.mem user_named user_short
        (omega (arith, id_size-le appid)) h.user;
}
