-- ===== src/Buffer/Words.antt =====
-- Little-endian words.
use fighting_card.Base.{
  ℕ, zero, suc, ◌+◌, ◌*◌, ◌/◌, ◌%◌, ◌^◌, ◌<◌, ◌≡◌, refl, List, [], ◌∷◌, arith, length,
}
use fighting_card.Buffer.Memory.{Mem, IsBytes, read}
use native.Mathlib.Nat.{pow-suc}

unfoldable pub to_le : ℕ → ℕ → List ℕ
to_le zero n = []
to_le (suc k) n = (n % 256) ∷ to_le k (n / 256)

unfoldable pub of_le : List ℕ → ℕ
of_le [] = 0
of_le (x ∷ xs) = x + 256 * of_le xs

pub length-to_le : (k n : ℕ) → length (to_le k n) ≡ k
unfolding to_le
length-to_le zero n = refl
length-to_le (suc k) n = omega (arith, length-to_le k (n / 256))

pub of_le-to_le : (k n : ℕ) → n < 256 ^ k → of_le (to_le k n) ≡ n
unfolding to_le of_le
of_le-to_le zero n h = omega arith
of_le-to_le (suc k) n h =
    let bound : n / 256 < 256 ^ k = omega (arith, pow-suc 256 k) in
    omega (arith, of_le-to_le k (n / 256) bound)

pub of_le-read-lt : (off n : ℕ) (m : Mem) → IsBytes m → of_le (read off n m) < 256 ^ n
unfolding of_le read
of_le-read-lt off zero m h = omega arith
of_le-read-lt off (suc n) m h = omega (arith, pow-suc 256 n, h off, of_le-read-lt (suc off) n m h)
