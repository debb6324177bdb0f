-- ===== src/HashCode.antt =====
-- common/utility.h: `HashCode`. `char` is signed: a byte from 128 on is added as the 32 bits of a
-- negative number.
pub mod Horner
pub mod Tests
use fighting_card.Base.{
  ℕ, zero, suc, ◌+◌, ◌*◌, ◌%◌, ◌-◌, ◌^◌, Bool, true, false, Option, none, some, List, [], ◌∷◌, ltb,
  ◌==◌, if◌then◌else◌,
}
use fighting_card.Base.Text.{Text}
use fighting_card.Base.Word.{u32}

abbrev pub char_to_uint32 : ℕ → ℕ
char_to_uint32 c = if ltb c 128 then c else 2 ^ 32 - 256 + c

-- `radis * result + input[i]`, in `uint32_t`.
unfoldable pub next_sum : ℕ → ℕ → ℕ
next_sum result c = u32 (31 * result + char_to_uint32 c)

-- The loop from `result` on; `% 0` is a fault.
unfoldable pub hash_loop : ℕ → ℕ → Text → Option ℕ
hash_loop modulus result [] = some result
hash_loop modulus result (c ∷ input) =
    let rest = hash_loop modulus (next_sum result c % modulus) input in
    if modulus == 0 then none else rest

unfoldable pub hash_code : Text → ℕ → Option ℕ
hash_code input modulus = hash_loop modulus 0 input
