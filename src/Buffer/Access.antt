-- ===== src/Buffer/Access.antt =====
-- Stores and loads within the array do not fault.
use fighting_card.Base.{ℕ, ◌+◌, ◌≤◌, ◌<◌, ◌≡◌, none, some, List, arith, length}
use fighting_card.Buffer.{Layout, store, load, load_byte}
use fighting_card.Buffer.Memory.{Mem, write, read}

module _ (l : Layout) (off : ℕ) where
  pub store-eq-some :
      (xs : List ℕ) (m : Mem)
      → off + length xs ≤ l.max_size
      → store l off xs m ≡ some (write off xs m)
  unfolding store
  store-eq-some xs m h = ground arith

  pub store-eq-none :
      (xs : List ℕ) (m : Mem) → l.max_size < off + length xs → store l off xs m ≡ none
  unfolding store
  store-eq-none xs m h = ground arith

  pub load-eq-some : (n : ℕ) (m : Mem) → off + n ≤ l.max_size → load l off n m ≡ some (read off n m)
  unfolding load
  load-eq-some n m h = ground arith

  pub load_byte-eq-some : (m : Mem) → off < l.max_size → load_byte l off m ≡ some (m off)
  unfolding load_byte
  load_byte-eq-some m h = ground arith
