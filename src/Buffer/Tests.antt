-- ===== src/Buffer/Tests.antt =====
-- Headers at the edges of the size test.
use fighting_card.Base.{ℕ, zero, suc, ◌≡◌, ◌↔◌, ◌⊎◌, refl, List, [], ◌∷◌, true, none, arith, length}
use fighting_card.Buffer.{
  user_layout, pipe_layout, cleared, store, size_valid, get_body_size, set_body_size,
}
use fighting_card.Buffer.Memory.{Mem, write, read, IsBytes}
use fighting_card.Buffer.Words.{of_le}
use fighting_card.Buffer.Size.{user_body_overflow, pipe_body_overflow}

zeros : ℕ → List ℕ
zeros zero = []
zeros (suc n) = 0 ∷ zeros n

length-zeros : (n : ℕ) → length (zeros n) ≡ n
unfolding zeros
length-zeros zero = refl
length-zeros (suc n) = omega (arith, length-zeros n)

-- 0x4000 is 16384.
abbrev full_header : Mem
full_header = write 0 (0 ∷ 0x40 ∷ []) (cleared user_layout)

full_header-IsBytes : IsBytes full_header
unfolding write cleared
full_header-IsBytes i = ground arith

full_header_valid : size_valid user_layout full_header ≡ true
unfolding size_valid get_body_size read write of_le
full_header_valid = refl

full_header_size : get_body_size user_layout full_header ≡ 16384
unfolding get_body_size read write of_le
full_header_size = refl

user_body_overflow_example :
    ((size_valid user_layout full_header ≡ true)
      × (store user_layout user_layout.header_size (zeros 16384) full_header ≡ none))
    ↔ ((length (zeros 16384) ≡ 16383) ⊎ (length (zeros 16384) ≡ 16384))
user_body_overflow_example =
    user_body_overflow full_header (zeros 16384) full_header-IsBytes
      (rw full_header_size (length-zeros 16384))

pipe_body_overflow_example :
    (size_valid pipe_layout (set_body_size pipe_layout 1_000_000 (cleared pipe_layout)) ≡ true)
    × (store pipe_layout pipe_layout.header_size
          (zeros 1_000_000)
          (set_body_size pipe_layout 1_000_000 (cleared pipe_layout))
        ≡ none)
pipe_body_overflow_example =
    pipe_body_overflow 1_000_000 (cleared pipe_layout) (zeros 1_000_000) (omega arith) (omega arith)
      (λ e. ground arith) (length-zeros 1_000_000)
