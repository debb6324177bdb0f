-- ===== src/Buffer.antt =====
-- common/buffer.h: the fixed array of a message buffer, its size header and the size test.
-- The two template arguments are a `Layout`. The header is little-endian, as on x86.
pub mod Memory
pub mod Words
pub mod Access
pub mod Size
pub mod Pointer
pub mod Tests
use fighting_card.Base.{
  ℕ, ◌+◌, ◌*◌, ◌%◌, ◌^◌, Bool, true, false, Option, none, some, List, ltb, leb, if◌then◌else◌,
  length,
}
use fighting_card.Base.Word.{u16}
use Memory.{Mem, write, read}
use Words.{to_le, of_le}

-- `sizeof(HeaderType)` and `kMaxBufferSize` of `Buffer<HeaderType, kMaxBufferSize>`.
pub record Layout : Type 0 where
  pub header_size : ℕ
  pub max_size : ℕ

-- `UserBuffer : public Buffer<uint16_t, 16 * 1024>`.
abbrev pub user_layout : Layout
user_layout = record { header_size = 2; max_size = 16 * 1024 }

-- `PipeBuffer : public Buffer<uint32_t, 512 * 1024>`.
abbrev pub pipe_layout : Layout
pipe_layout = record { header_size = 4; max_size = 512 * 1024 }

module _ (l : Layout) where
  -- A write of `xs` at offset `off` of `buf_`; a byte past its end is a fault.
  unfoldable pub store : ℕ → List ℕ → Mem → Option Mem
  store off xs m = if leb (off + length xs) l.max_size then some (write off xs m) else none

  -- A read of `n` bytes at offset `off`.
  unfoldable pub load : ℕ → ℕ → Mem → Option (List ℕ)
  load off n m = if leb (off + n) l.max_size then some (read off n m) else none

  unfoldable pub load_byte : ℕ → Mem → Option ℕ
  load_byte off m = if ltb off l.max_size then some (m off) else none

  -- `Buffer()` clears the array.
  unfoldable pub cleared : Mem
  cleared i = 0

  unfoldable pub get_body_size : Mem → ℕ
  get_body_size m = of_le (read 0 l.header_size m)

  unfoldable pub set_body_size : ℕ → Mem → Mem
  set_body_size n m = write 0 (to_le l.header_size n) m

  -- `size()` is computed in `HeaderType`.
  unfoldable pub size : Mem → ℕ
  size m = (l.header_size + get_body_size m) % 2 ^ (8 * l.header_size)

  -- The local `body_size` has type `uint16_t` for every `HeaderType`.
  unfoldable pub size_valid : Mem → Bool
  size_valid m =
      let body_size = u16 (get_body_size m) in
      if ltb l.max_size body_size then false else if leb body_size 0 then false else true
