-- ===== src/MurmurHash/Mix.antt =====
-- The steps of the hash undo one another.
use fighting_card.Base.{ℕ, ◌*◌, ◌/◌, ◌^◌, ◌≡◌, ◌<◌, refl, arith}
use fighting_card.Base.Word.{u64}
use fighting_card.Base.Xor.{bit_xor_cancel, bit_xor-zero, bit_xor-shift, bit_xor-lt}
use fighting_card.MurmurHash.{times_m, shift_mix, finish}

-- The inverse of `m` modulo 2 ^ 64.
abbrev pub inverse : ℕ
inverse = 0x5f7a0ea7e59b19bd

pub undo_times : ℕ → ℕ
undo_times x = u64 (x * inverse)

pub times_m-lt : (x : ℕ) → times_m x < 2 ^ 64
unfolding times_m
times_m-lt x = omega arith

pub undo_times-lt : (x : ℕ) → undo_times x < 2 ^ 64
unfolding undo_times
undo_times-lt x = omega arith

pub undo_times-times_m : (x : ℕ) → x < 2 ^ 64 → undo_times (times_m x) ≡ x
unfolding undo_times times_m
undo_times-times_m x fits = omega (arith, fits)

pub times_m-undo_times : (x : ℕ) → x < 2 ^ 64 → times_m (undo_times x) ≡ x
unfolding undo_times times_m
times_m-undo_times x fits = omega (arith, fits)

pub shift_mix-lt : (x : ℕ) → x < 2 ^ 64 → shift_mix x < 2 ^ 64
unfolding shift_mix
shift_mix-lt x fits = bit_xor-lt 64 x (x / 2 ^ 47) fits (omega (arith, fits))

-- 47 is more than half of 64 bits.
pub shift_mix-involutive : (x : ℕ) → x < 2 ^ 64 → shift_mix (shift_mix x) ≡ x
unfolding shift_mix
shift_mix-involutive x fits =
    rw
      (
        bit_xor-shift 47 x (x / 2 ^ 47),
        gone,
        bit_xor-zero (x / 2 ^ 47),
        bit_xor_cancel x (x / 2 ^ 47),
      )
      refl
  where
    gone : x / 2 ^ 47 / 2 ^ 47 ≡ 0
    gone = omega (arith, fits)

pub finish-lt : (h : ℕ) → finish h < 2 ^ 64
unfolding finish
finish-lt h = shift_mix-lt _ (times_m-lt _)
