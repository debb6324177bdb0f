-- ===== src/Buffer/Pointer.antt =====
-- A `char*` member that points into the buffer's own array, and what is read through it.
use fighting_card.Base.{
  ℕ, zero, suc, ◌+◌, ◌-◌, ◌<◌, ◌≡◌, ◌≢◌, Option, none, some, List, [], ◌∷◌, ◌++◌, arith, ◌==◌,
  length, All, ap, true, false,
}
use fighting_card.Base.Text.{Text}
use fighting_card.Buffer.{Layout, load}
use fighting_card.Buffer.Memory.{Mem, read}

-- The constructors of the buffers set no pointer; `offset n` is `buf_ + n`.
pub data Pointer : Type 0 where
  indeterminate null : Pointer
  offset : ℕ → Pointer

-- The C string at an offset, with `n` bytes left in the array.
unfoldable pub c_string : ℕ → ℕ → Mem → Option Text
c_string zero off m = none
c_string (suc n) off m = elim (m off == 0) [
  | true ↦ some []
  | false ↦ elim (c_string n (suc off) m) [ none ↦ none | some t ↦ some (m off ∷ t) ]
]

-- A text without NUL, written as `c_str()` gives it, is read back.
pub c_string_lem :
    (n off : ℕ) (t : Text) (m : Mem)
    → All (λ c. c ≢ 0) t
    → length t < n
    → read off (suc (length t)) m ≡ t ++ 0 ∷ []
    → c_string n off m ≡ some t
unfolding c_string read
c_string_lem zero off t m h lt e = elim lt [ ]
c_string_lem (suc n) off [] m h lt e = ground arith
c_string_lem (suc n) off (c ∷ t) m h lt e = ground (arith, h.0, c_string_lem n (suc off) t m h.1)

-- Its last byte is the NUL.
pub c_str_last :
    (off i : ℕ) (t : Text) (m : Mem)
    → i ≡ off + length t
    → read off (suc (length t)) m ≡ t ++ 0 ∷ []
    → m i ≡ 0
unfolding read
c_str_last off i [] m at e = ground (arith, ap m at)
c_str_last off i (c ∷ t) m at e = ground (arith, c_str_last (suc off) i t m)

-- `std::string(p)`; a pointer that was never set, or is null, is a fault.
unfoldable pub c_string_at : Layout → Pointer → Mem → Option Text
c_string_at l indeterminate m = none
c_string_at l null m = none
c_string_at l (offset n) m = c_string (l.max_size - n) n m

-- The bytes of `[p, p + n)`.
unfoldable pub bytes_at : Layout → Pointer → ℕ → Mem → Option (List ℕ)
bytes_at l indeterminate n m = none
bytes_at l null n m = none
bytes_at l (offset p) n m = load l p n m
