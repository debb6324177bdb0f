-- ===== src/Buffer/Memory.antt =====
-- An array of bytes as a function of the offset, with block writes and reads.
use mathlib.Core.Path.{ap₂, fun_ext, sym, ap, ◌∙◌}
use native.Mathlib.Nat.{add-zero, add-suc, suc-add}
use fighting_card.Base.{
  ℕ, zero, suc, ◌+◌, ◌≤◌, ◌<◌, ◌≡◌, refl, ◌⊎◌, List, [], ◌∷◌, arith, ◌==◌, if◌then◌else◌,
  Bool-cases, inl, inr, ◌++◌, length,
}

abbrev pub Mem : Type 0
Mem = ℕ → ℕ

unfoldable pub write : ℕ → List ℕ → Mem → Mem
write off [] m i = m i
write off (x ∷ xs) m i = if i == off then x else write (suc off) xs m i

unfoldable pub read : ℕ → ℕ → Mem → List ℕ
read off zero m = []
read off (suc n) m = m off ∷ read (suc off) n m

pub write-outside :
    (off : ℕ) (xs : List ℕ) (m : Mem) (i : ℕ)
    → (i < off) ⊎ (off + length xs ≤ i)
    → write off xs m i ≡ m i
unfolding write
write-outside off [] m i h = refl
write-outside off (x ∷ xs) m i h = ground (arith, write-outside (suc off) xs m i)

pub write-first : (off x : ℕ) (xs : List ℕ) (m : Mem) → write off (x ∷ xs) m off ≡ x
unfolding write
write-first off x xs m = ground arith

pub length-read : (off n : ℕ) (m : Mem) → length (read off n m) ≡ n
unfolding read
length-read off zero m = refl
length-read off (suc n) m = omega (arith, length-read (suc off) n m)

-- Reading elsewhere does not see a write.
pub read-write_ne :
    (off n at : ℕ) (xs : List ℕ) (m : Mem)
    → (off + n ≤ at) ⊎ (at + length xs ≤ off)
    → read off n (write at xs m) ≡ read off n m
unfolding read
read-write_ne off zero at xs m h = refl
read-write_ne off (suc n) at xs m h =
    ground (arith, write-outside at xs m off, read-write_ne (suc off) n at xs m)

-- A write of `x ∷ xs` is the write of `xs`, then of `x`, for what lies behind.
read-write_tail :
    (off n at x : ℕ) (xs : List ℕ) (m : Mem)
    → at < off
    → read off n (write at (x ∷ xs) m) ≡ read off n (write (suc at) xs m)
unfolding read write
read-write_tail off zero at x xs m h = refl
read-write_tail off (suc n) at x xs m h = ground (arith, read-write_tail (suc off) n at x xs m)

-- What was written is read back.
pub read-write_self : (off : ℕ) (xs : List ℕ) (m : Mem) → read off (length xs) (write off xs m) ≡ xs
unfolding read
read-write_self off [] m = refl
read-write_self off (x ∷ xs) m = ground (
  arith,
  write-first off x xs m,
  read-write_tail (suc off) (length xs) off x xs m,
  read-write_self (suc off) xs m,
)

pub read-write_len :
    (off n : ℕ) (xs : List ℕ) (m : Mem) → length xs ≡ n → read off n (write off xs m) ≡ xs
read-write_len off n xs m e = rw (← e) (read-write_self off xs m)

abbrev pub IsBytes : Mem → Type 0
IsBytes m = (i : ℕ) → m i < 256

-- Two reads are equal when the arrays agree byte by byte.
pub read-shift :
    (off off' n : ℕ) (m m' : Mem)
    → ((j : ℕ) → j < n → m' (off' + j) ≡ m (off + j))
    → read off' n m' ≡ read off n m
unfolding read
read-shift off off' zero m m' h = refl
read-shift off off' (suc n) m m' h =
    ap₂ ◌∷◌ (here (h 0 (omega arith)))
      (read-shift (suc off) (suc off') n m m' (λ j lt. step j (h (suc j) (omega arith))))
  where
    here : m' (off' + 0) ≡ m (off + 0) → m' off' ≡ m off
    here e = simp (add-zero) at e

    step : (j : ℕ) → m' (off' + suc j) ≡ m (off + suc j) → m' (suc off' + j) ≡ m (suc off + j)
    step j e = simp suc-add (simp add-suc at e)

write-cong :
    (off : ℕ) (xs : List ℕ) (m m' : Mem) (i : ℕ) → m i ≡ m' i → write off xs m i ≡ write off xs m' i
unfolding write
write-cong off [] m m' i h = h
write-cong off (x ∷ xs) m m' i h = ground (arith, write-cong (suc off) xs m m' i h)

write-append_at :
    (off at : ℕ) (xs ys : List ℕ) (m : Mem) (i : ℕ)
    → at ≡ off + length xs
    → write off (xs ++ ys) m i ≡ write at ys (write off xs m) i
unfolding write
write-append_at off at [] ys m i e = let e' : off ≡ at = omega arith in rw e'
write-append_at off at (x ∷ xs) ys m i e = elim (Bool-cases (i == off)) [
  | inl here ↦ rw here (ground (arith, write-outside at ys (write off (x ∷ xs) m) i))
  | inr there ↦ rw there (
      write-append_at (suc off) at xs ys m i (omega arith)
      ∙ write-cong at ys (write (suc off) xs m) (write off (x ∷ xs) m) i (ground arith))
]

-- Two blocks written one behind the other are one block.
pub write-append :
    (off at : ℕ) (xs ys : List ℕ) (m : Mem)
    → at ≡ off + length xs
    → write at ys (write off xs m) ≡ write off (xs ++ ys) m
write-append off at xs ys m e = fun_ext λ i. sym (write-append_at off at xs ys m i e)

-- Writing the byte that is there changes nothing.
pub write_same : (off x : ℕ) (m : Mem) → m off ≡ x → write off (x ∷ []) m ≡ m
unfolding write
write_same off x m h = fun_ext λ i. elim (Bool-cases (i == off)) [
  | inl here ↦ let e : i ≡ off = ground arith in rw here (sym h ∙ sym (ap m e))
  | inr there ↦ rw there
]

-- A block read from one array and written to another carries its bytes over.
pub write-read :
    (off n : ℕ) (m m' : Mem) (i : ℕ) → off ≤ i → i < off + n → write off (read off n m) m' i ≡ m i
unfolding write read
write-read off zero m m' i lo hi = absurd (omega arith)
write-read off (suc n) m m' i lo hi = elim (Bool-cases (i == off)) [
  | inl here ↦ let e : i ≡ off = ground arith in rw here (sym (ap m e))
  | inr there ↦ rw there (write-read (suc off) n m m' i (ground arith) (omega arith))
]
