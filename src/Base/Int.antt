-- ===== src/Base/Int.antt =====
-- `int`, kept as its 32 bits: order, increment, and its decimal text.
use Prim.Native.Nat.{ℕ, zero, suc, ◌+◌, ◌-◌, ◌*◌, ◌/◌, ◌%◌, ◌^◌, ◌≤◌, ◌<◌}
use native.Mathlib.Nat.{pow-suc}
use mathlib.Core.Path.{◌≡◌, refl, sym, ap, ◌∙◌}
use mathlib.Core.Logic.{inl, inr}
use mathlib.Core.Bool.{Bool, false}
use mathlib.Core.List.{[], ◌∷◌}
use mathlib.Core.Option.{Option, none, some}
use native.Mathlib.Omega.{arith}
use fighting_card.Base.Tests.{ltb, leb, ◌==◌, if◌then◌else◌, Bool-cases, lt→ltb}
use fighting_card.Base.Lists.{length}
use fighting_card.Base.Text.{Text}
use fighting_card.Base.Word.{u32}

-- The place of a value among all values, the least first.
abbrev pub place : ℕ → ℕ
place a = u32 (a + 2 ^ 31)

abbrev pub at_place : ℕ → ℕ
at_place k = u32 (k + 2 ^ 31)

pub place-at_place : (k : ℕ) → k < 2 ^ 32 → place (at_place k) ≡ k
place-at_place k fits = omega (arith, fits)

pub at_place-place : (a : ℕ) → a < 2 ^ 32 → at_place (place a) ≡ a
at_place-place a fits = omega (arith, fits)

-- `a <= b`.
abbrev pub int_le : ℕ → ℕ → Bool
int_le a b = leb (place a) (place b)

abbrev pub int_max : ℕ
int_max = 2 ^ 31 - 1

-- `++a`; an overflow is a fault.
unfoldable pub increment : ℕ → Option ℕ
increment a = if a == int_max then none else some (u32 (a + 1))

pub increment-at_place : (k : ℕ) → suc k < 2 ^ 32 → increment (at_place k) ≡ some (at_place (suc k))
unfolding increment
increment-at_place k fits = elim (Bool-cases (at_place k == int_max)) [
  | inl e ↦ absurd (ground (arith, fits))
  | inr e ↦ rw (e, next) refl
]
  where
    next : u32 (at_place k + 1) ≡ at_place (suc k)
    next = omega (arith, fits)

-- The digits of `n` before `rest`, with the number of digits left.
unfoldable pub digits_before : ℕ → ℕ → Text → Text
digits_before zero n rest = rest
digits_before (suc k) n rest =
    let more = digits_before k (n / 10) ((48 + n % 10) ∷ rest) in
    if ltb n 10 then (48 + n) ∷ rest else more

-- 32 bits have at most ten digits.
abbrev pub decimal : ℕ → Text
decimal n = digits_before 10 n []

-- `std::to_string`.
unfoldable pub to_string : ℕ → Text
to_string a = if ltb a (2 ^ 31) then decimal a else 45 ∷ decimal (2 ^ 32 - a)

abbrev pub value : ℕ → Text → ℕ
value n [] = n
value n (c ∷ t) = value (n * 10 + (c - 48)) t

-- The number that a text denotes.
unfoldable pub of_string : Text → ℕ
of_string [] = 0
of_string (c ∷ t) = if c == 45 then 2 ^ 32 - value 0 t else value 0 (c ∷ t)

value-digits :
    (k n : ℕ) (rest : Text) → n < 10 ^ suc k → value 0 (digits_before (suc k) n rest) ≡ value n rest
unfolding digits_before
value-digits zero n rest fits = rw (lt→ltb n 10 fits) (ap (λ m. value m rest) head)
  where
    head : 0 * 10 + (48 + n - 48) ≡ n
    head = omega arith
value-digits (suc k) n rest fits = elim (Bool-cases (ltb n 10)) [
  | inl e ↦ rw e (ap (λ m. value m rest) head)
  | inr e ↦ rw e (
      value-digits k (n / 10) ((48 + n % 10) ∷ rest) (omega (arith, fits, pow-suc 10 (suc k)))
      ∙ ap (λ m. value m rest) last)
]
  where
    head : 0 * 10 + (48 + n - 48) ≡ n
    head = omega arith

    last : n / 10 * 10 + (48 + n % 10 - 48) ≡ n
    last = omega arith

digits-head :
    (k n : ℕ) (rest : Text)
    → n < 10 ^ suc k
    → (c : ℕ) × (t : Text) × (digits_before (suc k) n rest ≡ c ∷ t) × (48 ≤ c)
unfolding digits_before
digits-head zero n rest fits = (48 + n, rest, rw (lt→ltb n 10 fits) refl, omega arith)
digits-head (suc k) n rest fits = elim (Bool-cases (ltb n 10)) [
  | inl e ↦ (48 + n, rest, rw e refl, omega arith)
  | inr e ↦
      let more =
        digits-head k (n / 10) ((48 + n % 10) ∷ rest) (omega (arith, fits, pow-suc 10 (suc k))) in
      (more.0, more.1, rw e more.2, more.3)
]

pub value-decimal : (n : ℕ) → n < 2 ^ 32 → value 0 (decimal n) ≡ n
value-decimal n fits = value-digits 9 n [] (omega (arith, fits))

length-digits :
    (k count n : ℕ) (rest : Text)
    → n < 10 ^ suc k
    → k ≤ count
    → length (digits_before (suc count) n rest) ≤ suc k + length rest
unfolding digits_before
length-digits zero count n rest fits room = rw (lt→ltb n 10 fits) (omega arith)
length-digits (suc k) zero n rest fits room = absurd (omega (arith, room))
length-digits (suc k) (suc count) n rest fits room = elim (Bool-cases (ltb n 10)) [
  | inl e ↦ rw e (omega arith)
  | inr e ↦ rw e (
      omega (
        arith,
        length-digits k count (n / 10) ((48 + n % 10) ∷ rest)
            (omega (arith, fits, pow-suc 10 (suc k))) (omega (arith, room)),
      ))
]

pub length-decimal : (k n : ℕ) → n < 10 ^ suc k → k ≤ 9 → length (decimal n) ≤ suc k
length-decimal k n fits room = omega (arith, length-digits k 9 n [] fits room)

-- `int` to `size_t`.
abbrev pub int_to_size : ℕ → ℕ
int_to_size a = if ltb a (2 ^ 31) then a else 2 ^ 64 - 2 ^ 32 + a

-- The text of a value denotes it.
pub of_string-to_string : (a : ℕ) → a < 2 ^ 32 → of_string (to_string a) ≡ a
unfolding to_string of_string
of_string-to_string a fits = elim (Bool-cases (ltb a (2 ^ 31))) [
  | inl e ↦
      let first = digits-head 9 a [] (omega (arith, fits)) in
      rw (e, first.2, not_minus first.0 first.3, ← first.2) (value-decimal a fits)
  | inr e ↦ rw (e, value-decimal (2 ^ 32 - a) (ground (arith, e))) (ground (arith, e))
]
  where
    not_minus : (c : ℕ) → 48 ≤ c → (c == 45) ≡ false
    not_minus c digit = ground arith

pub to_string-injective : (a b : ℕ) → a < 2 ^ 32 → b < 2 ^ 32 → to_string a ≡ to_string b → a ≡ b
to_string-injective a b fa fb e =
    sym (of_string-to_string a fa) ∙ ap of_string e ∙ of_string-to_string b fb
