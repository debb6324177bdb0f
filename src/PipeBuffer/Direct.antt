-- ===== src/PipeBuffer/Direct.antt =====
-- The frame of a message sent between servers, and `Decode()` of it.
use fighting_card.Base.{
  ℕ, suc, ◌+◌, ◌-◌, ◌*◌, ◌^◌, ◌≤◌, ◌<◌, ◌≡◌, ◌∙◌, refl, true, some, List, [], ◌∷◌, arith, length,
  pos→==-false, le→ltb-false,
}
use fighting_card.Base.Text.{Text}
use fighting_card.Base.Word.{u64}
use fighting_card.Buffer.{pipe_layout, get_body_size, set_body_size}
use fighting_card.Buffer.Access.{store-eq-some, load_byte-eq-some}
use fighting_card.Buffer.Memory.{Mem, write, write-outside, read-write_len, write_same}
use fighting_card.Buffer.Pointer.{offset, c_str_last}
use fighting_card.Buffer.Size.{get_body_size-set_body_size}
use fighting_card.Buffer.Words.{to_le, length-to_le}
use fighting_card.Message.{c_str}
use fighting_card.Message.Tail.{
  IsTail, IsTail-shift, tail_written, tail_written-IsTail, length-c_str, take-c_str,
}
use fighting_card.PipeBuffer.{PipeBuffer, put_name, decode}
use fighting_card.PipeBuffer.Head.{
  IsHead, IsHead-keep, head_end, head_written, head_written-IsHead, headed, decode_head_lem,
  id_size-le,
}

-- The format of the comment in common/pipe_buffer.h: the head, the tail, four bytes of check sum.
pub record IsDirect (m : Mem) (session_id : ℕ) (appid user_id name : Text) (payload : List ℕ)
    : Type 0 where
  pub sized :
      get_body_size pipe_layout m ≡ head_end appid user_id - 4 + (length name + length payload + 6)
  pub head : IsHead m session_id appid user_id
  pub tail : IsTail m (head_end appid user_id) name payload

pub put_name_lem :
    (name : Text) (off : ℕ) (m : Mem)
    → off + 256 ≤ 512 * 1024
    → length name < 255
    → put_name (suc (length name)) name off m ≡ some (write off (c_str name) m)
unfolding put_name
put_name_lem name off m fits short =
    rw
      (
        pos→==-false (suc (length name)) (omega arith),
        take-c_str name,
        store-eq-some pipe_layout off (c_str name) m (omega (arith, length-c_str name)),
        store-eq-some pipe_layout (off + suc (length name) - 1) (0 ∷ []) _ (omega arith),
        write_same (off + suc (length name) - 1) 0 (write off (c_str name) m) ended,
      )
      refl
  where
    ended : write off (c_str name) m (off + suc (length name) - 1) ≡ 0
    ended =
        c_str_last off (off + suc (length name) - 1) name _ (omega arith)
          (read-write_len off (suc (length name)) (c_str name) m (length-c_str name))

module _ (session_id : ℕ) (appid user_id name : Text) (payload : List ℕ)
    (app_short : length appid < 255) (user_short : length user_id < 255) (long : 1 ≤ length name)
    (short : length name < 255) (fits : length payload ≤ 500 * 1024) where
  abbrev end : ℕ
  end = head_end appid user_id

  abbrev total : ℕ
  total = end - 4 + (length name + length payload + 6)

  end-le : end ≤ 522
  end-le = omega (arith, id_size-le appid, id_size-le user_id)

  module _ (b : PipeBuffer) where
    abbrev tailed : Mem
    tailed = tail_written end name payload (head_written session_id appid user_id b.mem)

    abbrev pub encoded_mem : Mem
    encoded_mem = set_body_size pipe_layout total tailed

    encoded-tailed : (i : ℕ) → 4 ≤ i → encoded_mem i ≡ tailed i
    unfolding set_body_size
    encoded-tailed i h =
        write-outside 0 (to_le 4 total) tailed i (omega (arith, length-to_le 4 total))

    tailed-headed : (i : ℕ) → i < end → tailed i ≡ head_written session_id appid user_id b.mem i
    tailed-headed i h =
        write-outside (end + 2 + length name) payload _ i (omega arith)
        ∙ write-outside (end + 1) (c_str name) _ i (omega arith)
        ∙ write-outside end (suc (length name) ∷ []) _ i (omega arith)

    pub encoded-IsDirect :
        session_id < 2 ^ 32 → IsDirect encoded_mem session_id appid user_id name payload
    encoded-IsDirect word = record {
      sized = get_body_size-set_body_size pipe_layout total tailed (omega (arith, end-le));
      head =
          IsHead-keep session_id appid user_id (head_written session_id appid user_id b.mem) _
            (λ i lo hi. encoded-tailed i lo ∙ tailed-headed i hi)
            (head_written-IsHead session_id appid user_id word b.mem);
      tail =
          IsTail-shift end end name payload tailed _
            (λ j lt. encoded-tailed (end + j) (omega arith))
            (tail_written-IsTail end name payload _);
    }

    abbrev pub encoded : PipeBuffer
    encoded = record (headed session_id appid user_id b app_short user_short) {
      mem = encoded_mem;
      msg_name_size = offset end;
      msg_name = offset (end + 1);
      msg_data = offset (end + 2 + length name);
    }

  module _ (b : PipeBuffer) (h : IsDirect b.mem session_id appid user_id name payload) where
    abbrev pub decoded : PipeBuffer
    decoded = record (headed session_id appid user_id b app_short user_short) {
      msg_name_size = offset end;
      msg_name = offset (end + 1);
      msg_data = offset (end + 2 + length name);
      msg_data_size = end - 4 + length payload;
    }

    pub decode_lem : decode b ≡ some (decoded, true)
    unfolding decode
    decode_lem =
        rw
          (
            decode_head_lem session_id appid user_id b app_short user_short h.head,
            load_byte-eq-some pipe_layout end b.mem (omega (arith, end-le)),
            h.tail.counted,
            le→ltb-false (suc (length name)) 2 (omega arith),
            load_byte-eq-some pipe_layout (end + 1 + suc (length name) - 1) b.mem
                (omega (arith, end-le)),
            c_str_last (end + 1) (end + 1 + suc (length name) - 1) name b.mem (omega arith)
                h.tail.named,
            h.sized,
            data_size,
            data_start,
          )
          refl
      where
        data_size : u64 (total + 2 ^ 64 - 1 - suc (length name) - 4) ≡ end - 4 + length payload
        data_size = omega (arith, end-le)

        data_start : end + 1 + suc (length name) ≡ end + 2 + length name
        data_start = omega arith
