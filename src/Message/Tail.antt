-- ===== src/Message/Tail.antt =====
-- The part that every frame ends with: the size of the type name, the name, the serialized message.
use fighting_card.Base.{
  ℕ, suc, ◌+◌, ◌<◌, ◌≡◌, ◌∙◌, sym, ap, List, [], ◌∷◌, arith, length, take, take_all, length-append,
}
use native.Mathlib.Nat.{add-zero, add_assoc}
use fighting_card.Base.Text.{Text}
use fighting_card.Buffer.Memory.{
  Mem, write, read, write-outside, read-write_ne, read-write_len, write-first, read-shift,
  read-write_self,
}
use fighting_card.Message.{c_str}

-- `name_size`, `type_name` and `protobuf_data`, one after the other from offset `at`.
pub record IsTail (m : Mem) (at : ℕ) (name : Text) (payload : List ℕ) : Type 0 where
  pub counted : m at ≡ suc (length name)
  pub named : read (at + 1) (suc (length name)) m ≡ c_str name
  pub filled : read (at + 2 + length name) (length payload) m ≡ payload

-- The three writes that put a tail at `at`.
abbrev pub tail_written : ℕ → Text → List ℕ → Mem → Mem
tail_written at name payload m =
    write (at + 2 + length name) payload
      (write (at + 1) (c_str name) (write at (suc (length name) ∷ []) m))

pub length-c_str : (t : Text) → length (c_str t) ≡ suc (length t)
length-c_str t = omega (arith, length-append t (0 ∷ []))

pub take-c_str : (t : Text) → take (suc (length t)) (c_str t) ≡ c_str t
take-c_str t = ap (λ n. take n (c_str t)) (sym (length-c_str t)) ∙ take_all (c_str t)

module _ (at : ℕ) (name : Text) (payload : List ℕ) (m : Mem) where
  abbrev counted_mem : Mem
  counted_mem = write at (suc (length name) ∷ []) m

  abbrev named_mem : Mem
  named_mem = write (at + 1) (c_str name) counted_mem

  pub tail_written-IsTail : IsTail (tail_written at name payload m) at name payload
  tail_written-IsTail = record {
    counted =
        write-outside (at + 2 + length name) payload named_mem at (omega arith)
        ∙ write-outside (at + 1) (c_str name) counted_mem at (omega arith)
        ∙ write-first at (suc (length name)) [] m;
    named =
        read-write_ne (at + 1) (suc (length name)) (at + 2 + length name) payload named_mem
          (omega arith)
        ∙ read-write_len (at + 1) (suc (length name)) (c_str name) counted_mem (length-c_str name);
    filled = read-write_self (at + 2 + length name) payload named_mem;
  }

-- A tail copied byte by byte is the same tail, wherever it lands.
pub IsTail-shift :
    (at at' : ℕ) (name : Text) (payload : List ℕ) (m m' : Mem)
    → ((j : ℕ) → j < 2 + length name + length payload → m' (at' + j) ≡ m (at + j))
    → IsTail m at name payload
    → IsTail m' at' name payload
IsTail-shift at at' name payload m m' same t = record {
  counted = (simp add-zero at (same 0 (omega arith))) ∙ t.counted;
  named =
      read-shift (at + 1) (at' + 1) (suc (length name)) m m'
        (λ j lt. simp add_assoc (same (1 + j) (omega arith)))
      ∙ t.named;
  filled =
      read-shift (at + 2 + length name) (at' + 2 + length name) (length payload) m m'
        (λ j lt. simp add_assoc (same (2 + (length name + j)) (omega arith)))
      ∙ t.filled;
}
