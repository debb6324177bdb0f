-- ===== src/PipeBuffer/Ids.antt =====
-- The application's and the user's id in a frame: a size byte and a C string, or the byte 0.
use fighting_card.Base.{
  ℕ, suc, ◌+◌, ◌-◌, ◌≤◌, ◌<◌, ◌≡◌, ◌∙◌, refl, true, some, List, [], ◌∷◌, arith, length, ◌*◌,
  pos→==-false,
}
use native.Mathlib.Nat.{add-zero, add_assoc}
use fighting_card.Base.Text.{Text}
use fighting_card.Base.Word.{u8}
use fighting_card.Buffer.{pipe_layout}
use fighting_card.Buffer.Access.{store-eq-some, load_byte-eq-some}
use fighting_card.Buffer.Memory.{
  Mem, write, read, write-outside, write-first, write-append, read-write_len, read-shift,
}
use fighting_card.Buffer.Pointer.{Pointer, null, offset, c_str_last}
use fighting_card.Message.{c_str}
use fighting_card.Message.Tail.{length-c_str}
use fighting_card.PipeBuffer.{put_id, get_id}

-- The size byte of an id that fits one.
abbrev pub id_size : Text → ℕ
id_size [] = 0
id_size (c ∷ t) = suc (suc (length t))

abbrev pub id_bytes : Text → List ℕ
id_bytes [] = []
id_bytes (c ∷ t) = c_str (c ∷ t)

-- Where the member points.
abbrev pub id_pointer : ℕ → Text → Pointer
id_pointer off [] = null
id_pointer off (c ∷ t) = offset (off + 1)

pub length-id_bytes : (id : Text) → length (id_bytes id) ≡ id_size id
length-id_bytes [] = refl
length-id_bytes (c ∷ t) = length-c_str (c ∷ t)

-- The format: the size, then the bytes.
pub record IsId (m : Mem) (off : ℕ) (id : Text) : Type 0 where
  pub counted : m off ≡ id_size id
  pub written : read (off + 1) (id_size id) m ≡ id_bytes id

abbrev pub id_written : ℕ → Text → Mem → Mem
id_written off id m = write (off + 1) (id_bytes id) (write off (id_size id ∷ []) m)

pub id_written-IsId : (off : ℕ) (id : Text) (m : Mem) → IsId (id_written off id m) off id
id_written-IsId off id m = record {
  counted =
      write-outside (off + 1) (id_bytes id) _ off (omega arith) ∙ write-first off (id_size id) [] m;
  written = read-write_len (off + 1) (id_size id) (id_bytes id) _ (length-id_bytes id);
}

pub IsId-keep :
    (off : ℕ) (id : Text) (m m' : Mem)
    → ((j : ℕ) → j < 1 + id_size id → m' (off + j) ≡ m (off + j))
    → IsId m off id
    → IsId m' off id
IsId-keep off id m m' same h = record {
  counted = (simp add-zero at (same 0 (omega arith))) ∙ h.counted;
  written =
      read-shift (off + 1) (off + 1) (id_size id) m m'
        (λ j lt. simp add_assoc (same (1 + j) (omega arith)))
      ∙ h.written;
}

-- `put_id` writes an id of at most 254 bytes in the format.
pub put_id_lem :
    (id : Text) (off : ℕ) (m : Mem)
    → length id < 255
    → off + 256 ≤ 512 * 1024
    → put_id id off m ≡ some (id_written off id m, id_pointer off id, id_size id)
unfolding put_id write
put_id_lem [] off m short fits = rw (store-eq-some pipe_layout off (0 ∷ []) m (omega arith)) refl
put_id_lem (c ∷ t) off m short fits =
    rw
      (
        pos→==-false (length (c ∷ t)) (omega arith),
        size,
        store-eq-some pipe_layout off (suc (suc (length t)) ∷ []) m (omega arith),
        store-eq-some pipe_layout (off + 1) (c ∷ t) _ (omega arith),
        store-eq-some pipe_layout (off + 1 + suc (suc (length t)) - 1) (0 ∷ []) _ (omega arith),
        write-append (off + 1) (off + 1 + suc (suc (length t)) - 1) (c ∷ t) (0 ∷ [])
            (write off (suc (suc (length t)) ∷ []) m) (omega arith),
      )
      refl
  where
    size : u8 (length (c ∷ t) + 1) ≡ suc (suc (length t))
    size = omega arith

-- `get_id` finds it, and sees the NUL.
pub get_id_lem :
    (id : Text) (off : ℕ) (m : Mem)
    → length id < 255
    → off + 256 ≤ 512 * 1024
    → IsId m off id
    → get_id off m ≡ some (id_size id, id_pointer off id, true)
unfolding get_id
get_id_lem [] off m short fits h =
    rw (load_byte-eq-some pipe_layout off m (omega arith), h.counted) refl
get_id_lem (c ∷ t) off m short fits h =
    rw
      (
        load_byte-eq-some pipe_layout off m (omega arith),
        h.counted,
        pos→==-false (suc (suc (length t))) (omega arith),
        load_byte-eq-some pipe_layout (off + 1 + suc (suc (length t)) - 1) m (omega arith),
        c_str_last (off + 1) (off + 1 + suc (suc (length t)) - 1) (c ∷ t) m (omega arith) h.written,
      )
      refl
