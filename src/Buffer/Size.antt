-- ===== src/Buffer/Size.antt =====
-- What the size test of a header promises, and where it falls short.
use fighting_card.Base.{
  ℕ, ◌-◌, ◌*◌, ◌%◌, ◌^◌, ◌≤◌, ◌<◌, ◌≡◌, ◌↔◌, ◌≢◌, ◌⊎◌, List, true, none, arith, length,
}
use fighting_card.Buffer.{
  Layout, user_layout, pipe_layout, store, get_body_size, set_body_size, size_valid,
}
use fighting_card.Buffer.Memory.{Mem, IsBytes, read-write_len}
use fighting_card.Buffer.Words.{of_le-to_le, length-to_le, to_le, of_le-read-lt}

pub get_body_size-set_body_size :
    (l : Layout) (n : ℕ) (m : Mem)
    → n < 256 ^ l.header_size
    → get_body_size l (set_body_size l n m) ≡ n
unfolding get_body_size set_body_size
get_body_size-set_body_size l n m h =
    rw (read-write_len 0 l.header_size (to_le l.header_size n) m (length-to_le l.header_size n))
      (of_le-to_le l.header_size n h)

pub get_body_size-lt : (l : Layout) (m : Mem) → IsBytes m → get_body_size l m < 256 ^ l.header_size
unfolding get_body_size
get_body_size-lt l m h = of_le-read-lt 0 l.header_size m h

-- A user header passes exactly when it announces between 1 and 16384 bytes.
pub size_valid-user :
    (m : Mem)
    → IsBytes m
    → (size_valid user_layout m ≡ true)
      ↔ ((1 ≤ get_body_size user_layout m) × (get_body_size user_layout m ≤ 16384))
unfolding size_valid
size_valid-user m h = ground (arith, get_body_size-lt user_layout m h)

-- The array has room for 16382 bytes behind the header. The bodies that the size test admits and
-- that run past the end of the array are exactly those of 16383 and 16384 bytes.
pub user_body_overflow :
    (m : Mem) (body : List ℕ)
    → IsBytes m
    → length body ≡ get_body_size user_layout m
    → ((size_valid user_layout m ≡ true)
        × (store user_layout user_layout.header_size body m ≡ none))
      ↔ ((length body ≡ 16383) ⊎ (length body ≡ 16384))
unfolding store
user_body_overflow m body h e =
    let admitted = size_valid-user m h in
    (
      λ o. let bounds = admitted.0 o.0 in let past = o.1 in ground arith,
      λ s. (admitted.1 (ground (arith, s, e)), ground (arith, s)),
    )

-- A pipe header passes exactly when the low sixteen bits of its size are not all zero, whatever
-- the sixteen bits above them.
pub size_valid-pipe :
    (m : Mem) → (size_valid pipe_layout m ≡ true) ↔ (get_body_size pipe_layout m % 2 ^ 16 ≢ 0)
unfolding size_valid
size_valid-pipe m = ground arith

-- So a pipe body of any size past the end of the array is admitted, unless that size is a
-- multiple of 65536, and its arrival is a fault.
pub pipe_body_overflow :
    (n : ℕ) (m : Mem) (body : List ℕ)
    → n < 2 ^ 32
    → 512 * 1024 - 4 < n
    → n % 2 ^ 16 ≢ 0
    → length body ≡ n
    → (size_valid pipe_layout (set_body_size pipe_layout n m) ≡ true)
      × (store pipe_layout pipe_layout.header_size body (set_body_size pipe_layout n m) ≡ none)
unfolding store
pipe_body_overflow n m body h past odd e =
    ((size_valid-pipe _).1 (rw (get_body_size-set_body_size pipe_layout n m h) odd), ground arith)
