-- ===== src/MurmurHash.antt =====
-- common/utility.cpp: `MurmurHash64` and the two functions `Hash`. The memory at `key` is the list
-- of its bytes, a read behind the last is a fault (`none`). An `int` is kept as its 32 bits.
pub mod Mix
pub mod Number
pub mod Strings
pub mod Tests
use fighting_card.Base.{
  ℕ, zero, suc, ◌+◌, ◌-◌, ◌*◌, ◌/◌, ◌%◌, ◌^◌, Option, none, some, [], ◌∷◌, ltb, if◌then◌else◌,
  length, get_elem?, take, drop, ◌>>=◌,
}
use fighting_card.Base.Text.{Text}
use fighting_card.Base.Word.{u32, u64}
use fighting_card.Base.Xor.{bit_xor}
use fighting_card.Buffer.Words.{to_le, of_le}

-- `m`.
abbrev pub multiplier : ℕ
multiplier = 0xc6a4a7935bd1e995

-- `x *= m`.
unfoldable pub times_m : ℕ → ℕ
times_m x = u64 (x * multiplier)

-- `x ^= x >> r`.
unfoldable pub shift_mix : ℕ → ℕ
shift_mix x = bit_xor x (x / 2 ^ 47)

-- The body of the loop.
unfoldable pub mix_word : ℕ → ℕ → ℕ
mix_word h k = times_m (bit_xor h (times_m (shift_mix (times_m k))))

-- `int` to `uint64_t`.
abbrev pub int_to_uint64 : ℕ → ℕ
int_to_uint64 len = if ltb len (2 ^ 31) then len else 2 ^ 64 - 2 ^ 32 + len

-- `len / 8`, rounded to zero. With a negative quotient `end` is before `data`, which goes on and
-- never reaches it.
unfoldable pub word_count : ℕ → Option ℕ
word_count len =
    if ltb len (2 ^ 31) then some (len / 8) else if ltb (2 ^ 32 - len) 8 then some 0 else none

-- `*data`, of a little-endian machine.
unfoldable pub read_word : Text → Option ℕ
read_word data1 = if ltb (length data1) 8 then none else some (of_le (take 8 data1))

-- The loop, with the number of words to go.
unfoldable pub mix_words : ℕ → Text → ℕ → Option (ℕ × Text)
mix_words zero data1 h = some (h, data1)
mix_words (suc n) data1 h = do k ← read_word data1; mix_words n (drop 8 data1) (mix_word h k)

-- `h ^= uint64_t(data2[i]) << 8 * i`.
unfoldable pub mix_byte : ℕ → Text → ℕ → Option ℕ
mix_byte i data2 h = do c ← get_elem? data2 i; some (bit_xor h (c * 2 ^ (8 * i)))

-- The `switch`: a case goes on with the next one below.
unfoldable pub mix_tail : ℕ → Text → ℕ → Option ℕ
mix_tail zero data2 h = some h
mix_tail (suc zero) data2 h = do mixed ← mix_byte 0 data2 h; some (times_m mixed)
mix_tail (suc (suc i)) data2 h = do mixed ← mix_byte (suc i) data2 h; mix_tail (suc i) data2 mixed

unfoldable pub finish : ℕ → ℕ
finish h = shift_mix (times_m (shift_mix h))

-- `seed ^ (len * m)`.
unfoldable pub start : ℕ → ℕ → ℕ
start len seed = bit_xor seed (u64 (int_to_uint64 len * multiplier))

-- `len & 7` is the remainder by 8.
unfoldable pub murmur_hash64 : Text → ℕ → ℕ → Option ℕ
murmur_hash64 key len seed = do
  n ← word_count len
  (h, data2) ← mix_words n key (start len seed)
  mixed ← mix_tail (len % 8) data2 h
  some (finish mixed)

-- The `seed` of both, as the `unsigned int` that it is passed as.
abbrev pub hash_seed : ℕ
hash_seed = u32 0xEE6B27EB

-- `Hash(const std::string&)`; the size is passed as an `int`.
unfoldable pub hash_string : Text → Option ℕ
hash_string str = murmur_hash64 str (u32 (length str)) hash_seed

-- `Hash(uint64_t)`.
unfoldable pub hash_number : ℕ → Option ℕ
hash_number n = murmur_hash64 (to_le 8 n) 8 hash_seed
