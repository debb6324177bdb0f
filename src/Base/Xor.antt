-- ===== src/Base/Xor.antt =====
-- Exclusive or, digit by digit.
use Prim.Native.Nat.{ℕ, zero, suc, ◌+◌, ◌-◌, ◌*◌, ◌/◌, ◌%◌, ◌^◌, ◌≤◌, ◌<◌, digits, differ}
pub use Prim.Native.Nat.{bit_xor}
use Prim.Native.Nat.{bit_xor-bitwise}
use native.Mathlib.Nat.{le_refl, pow-suc, pow-succ', div-div-eq-div-mul}
use mathlib.Core.Path.{◌≡◌, refl, ap, ◌∙◌}
use native.Mathlib.Omega.{arith}

-- The digits of `a` and `b`, of which `count` are still to come.
abbrev xor_digits : ℕ → ℕ → ℕ → ℕ
xor_digits count a b = digits (λ rest. rest) differ count a b

one_more : (count a b : ℕ) → a ≤ count → xor_digits (suc count) a b ≡ xor_digits count a b
one_more zero zero b enough = refl
one_more zero (suc a) b enough = absurd (omega (arith, enough))
one_more (suc count) zero b enough = refl
one_more (suc count) (suc a) b enough =
    ap (λ rest. rest * 2 + differ (suc a % 2) (b % 2))
      (one_more count (suc a / 2) (b / 2) (omega (arith, enough)))

some_more : (more count a b : ℕ) → a ≤ count → xor_digits (more + count) a b ≡ xor_digits count a b
some_more zero count a b enough = ap (λ k. xor_digits k a b) {x = 0 + count} (omega arith)
some_more (suc more) count a b enough =
    ap (λ k. xor_digits k a b) {x = suc more + count} {y = suc (more + count)} (omega arith)
    ∙ one_more (more + count) a b (omega (arith, enough))
    ∙ some_more more count a b enough

-- As many digits as `a` is large are enough for its half.
half_digits : (a b : ℕ) → xor_digits a (suc a / 2) b ≡ xor_digits (suc a / 2) (suc a / 2) b
half_digits a b =
    ap (λ k. xor_digits k (suc a / 2) b) {x = a} {y = a - suc a / 2 + suc a / 2} (omega arith)
    ∙ some_more (a - suc a / 2) (suc a / 2) (suc a / 2) b (omega arith)

differ-mod : (x y : ℕ) → x < 2 → y < 2 → differ x y ≡ (x + y) % 2
differ-mod zero y p q = omega arith
differ-mod (suc zero) zero p q = refl
differ-mod (suc zero) (suc zero) p q = refl
differ-mod (suc zero) (suc (suc y)) p q = absurd (omega arith)
differ-mod (suc (suc x)) y p q = absurd (omega arith)

-- The lowest digit.
pub bit_xor_step : (a b : ℕ) → bit_xor a b ≡ bit_xor (a / 2) (b / 2) * 2 + (a + b) % 2
bit_xor_step zero b = rw (bit_xor-bitwise 0 b, bit_xor-bitwise (0 / 2) (b / 2)) (omega arith)
bit_xor_step (suc a) b =
    rw
      (
        bit_xor-bitwise (suc a) b,
        bit_xor-bitwise (suc a / 2) (b / 2),
        half_digits a (b / 2),
        differ-mod (suc a % 2) (b % 2) (omega arith) (omega arith),
      )
      (omega arith)

half : (a b : ℕ) → bit_xor a b / 2 ≡ bit_xor (a / 2) (b / 2)
half a b = omega (arith, bit_xor_step a b)

parity : (a b : ℕ) → bit_xor a b % 2 ≡ (a + b) % 2
parity a b = omega (arith, bit_xor_step a b)

self_below : (n a : ℕ) → a ≤ n → bit_xor a a ≡ 0
self_below n zero p = simp bit_xor-bitwise refl
self_below zero (suc a) p = absurd (omega arith)
self_below (suc n) (suc a) p =
    omega (arith, bit_xor_step (suc a) (suc a), self_below n (suc a / 2) (omega arith))

pub bit_xor_self : (a : ℕ) → bit_xor a a ≡ 0
bit_xor_self a = self_below a a (le_refl a)

pub zero-bit_xor : (a : ℕ) → bit_xor 0 a ≡ a
zero-bit_xor a = simp bit_xor-bitwise refl

zero_below : (n a : ℕ) → a ≤ n → bit_xor a 0 ≡ a
zero_below n zero p = zero-bit_xor 0
zero_below zero (suc a) p = absurd (omega arith)
zero_below (suc n) (suc a) p =
    omega (arith, bit_xor_step (suc a) 0, zero_below n (suc a / 2) (omega arith))

pub bit_xor-zero : (a : ℕ) → bit_xor a 0 ≡ a
bit_xor-zero a = zero_below a a (le_refl a)

assoc_below : (n a b c : ℕ) → a ≤ n → bit_xor (bit_xor a b) c ≡ bit_xor a (bit_xor b c)
assoc_below n zero b c p = rw (zero-bit_xor b, zero-bit_xor (bit_xor b c)) refl
assoc_below zero (suc a) b c p = absurd (omega arith)
assoc_below (suc n) (suc a) b c p =
    rw
      (
        bit_xor_step (bit_xor (suc a) b) c,
        bit_xor_step (suc a) (bit_xor b c),
        half (suc a) b,
        half b c,
        assoc_below n (suc a / 2) (b / 2) (c / 2) (omega arith),
      )
      (omega (arith, parity (suc a) b, parity b c))

pub bit_xor_assoc : (a b c : ℕ) → bit_xor (bit_xor a b) c ≡ bit_xor a (bit_xor b c)
bit_xor_assoc a b c = assoc_below a a b c (le_refl a)

-- What is mixed in twice is gone.
pub bit_xor_cancel : (a b : ℕ) → bit_xor (bit_xor a b) b ≡ a
bit_xor_cancel a b = rw (bit_xor_assoc a b b, bit_xor_self b, bit_xor-zero a) refl

pub bit_xor_cancel_left : (a b : ℕ) → bit_xor a (bit_xor a b) ≡ b
bit_xor_cancel_left a b = rw (← bit_xor_assoc a a b, bit_xor_self a, zero-bit_xor b) refl

shift-suc : (k a : ℕ) → a / 2 ^ suc k ≡ a / 2 / 2 ^ k
shift-suc k a = rw (pow-succ' 2 k, div-div-eq-div-mul a 2 (2 ^ k)) refl

shift_none : (a : ℕ) → a / 2 ^ 0 ≡ a
shift_none a = omega arith

pub bit_xor-shift : (k a b : ℕ) → bit_xor a b / 2 ^ k ≡ bit_xor (a / 2 ^ k) (b / 2 ^ k)
bit_xor-shift zero a b = rw (shift_none (bit_xor a b), shift_none a, shift_none b) refl
bit_xor-shift (suc k) a b =
    rw
      (
        shift-suc k (bit_xor a b),
        shift-suc k a,
        shift-suc k b,
        half a b,
        bit_xor-shift k (a / 2) (b / 2),
      )
      refl

pub bit_xor-lt : (k a b : ℕ) → a < 2 ^ k → b < 2 ^ k → bit_xor a b < 2 ^ k
bit_xor-lt zero zero zero p q = p
bit_xor-lt zero (suc a) b p q = absurd (omega arith)
bit_xor-lt zero zero (suc b) p q = absurd (omega arith)
bit_xor-lt (suc k) a b p q = omega (
  arith,
  pow-suc 2 k,
  bit_xor_step a b,
  bit_xor-lt k (a / 2) (b / 2) (omega (arith, pow-suc 2 k)) (omega (arith, pow-suc 2 k)),
)
