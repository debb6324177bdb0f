-- ===== src/HashCode/Horner.antt =====
-- `HashCode` against the sum that its comment gives.
use fighting_card.Base.{
  ℕ, suc, ◌+◌, ◌*◌, ◌%◌, ◌/◌, ◌^◌, ◌≡◌, ◌≤◌, ◌<◌, ◌∙◌, sym, ap, some, [], ◌∷◌, arith, length, All,
  pos→==-false, lt→ltb,
}
use native.Mathlib.Nat.{
  mod-add-div', add-mul-mod_self_right, mul_assoc, mod-lt, zero-mod, pow-succ',
}
use fighting_card.Base.Text.{Text}
use fighting_card.HashCode.{next_sum, hash_loop, hash_code}

-- s[0] * 31 ^ (n - 1) + … + s[n - 1].
abbrev pub java_sum : Text → ℕ
java_sum [] = 0
java_sum (c ∷ input) = c * 31 ^ length input + java_sum input

mod_step : (a c m : ℕ) → (31 * (a % m) + c) % m ≡ (31 * a + c) % m
mod_step a c m =
    sym (add-mul-mod_self_right (31 * (a % m) + c) (31 * (a / m)) m) ∙ ap (λ n. n % m) whole
  where
    whole : 31 * (a % m) + c + 31 * (a / m) * m ≡ 31 * a + c
    whole = rw (mul_assoc 31 (a / m) m) (omega (arith, mod-add-div' a m))

no_wrap : (r c m : ℕ) → r < m → m ≤ 138547328 → c < 128 → next_sum r c ≡ 31 * r + c
unfolding next_sum
no_wrap r c m less small ascii = rw (lt→ltb c 128 ascii) (omega (arith, less, small, ascii))

ring_step : (a c p : ℕ) → (31 * a + c) * p ≡ a * (31 * p) + c * p
ring_step a c p = omega arith

loop-sum :
    (m a : ℕ) (input : Text)
    → 0 < m
    → m ≤ 138547328
    → All (λ c. c < 128) input
    → hash_loop m (a % m) input ≡ some ((a * 31 ^ length input + java_sum input) % m)
unfolding hash_loop
loop-sum m a [] pos small ascii = ap (λ n. some (n % m)) same
  where
    same : a ≡ a * 1 + 0
    same = omega arith
loop-sum m a (c ∷ input) pos small ascii =
    rw (pos→==-false m pos, no_wrap (a % m) c m (mod-lt a pos) small ascii.0, mod_step a c m)
      (loop-sum m (31 * a + c) input pos small ascii.1 ∙ ap (λ n. some (n % m)) regrouped)
  where
    regrouped :
        (31 * a + c) * 31 ^ length input + java_sum input
        ≡ a * 31 ^ suc (length input) + (c * 31 ^ length input + java_sum input)
    regrouped = rw (pow-succ' 31 (length input), ring_step a c (31 ^ length input)) (omega arith)

-- For text in ASCII and a modulus up to (2 ^ 32 - 128) / 31, no step wraps around, and the result
-- is Java's sum modulo the modulus.
pub hash_code-java_sum :
    (input : Text) (m : ℕ)
    → 0 < m
    → m ≤ 138547328
    → All (λ c. c < 128) input
    → hash_code input m ≡ some (java_sum input % m)
unfolding hash_code
hash_code-java_sum input m pos small ascii =
    ap (λ r. hash_loop m r input) (sym (zero-mod m))
    ∙ loop-sum m 0 input pos small ascii
    ∙ ap (λ n. some (n % m)) no_start
  where
    no_start : 0 * 31 ^ length input + java_sum input ≡ java_sum input
    no_start = omega arith
