-- ===== src/MurmurHash/Number.antt =====
-- `Hash` of a number of 64 bits loses nothing: the number can be computed from it.
use fighting_card.Base.{ℕ, ◌*◌, ◌^◌, ◌≡◌, ◌<◌, ◌↔◌, ◌∙◌, refl, sym, ap, some, arith, take, take_all}
use fighting_card.Base.Word.{u64}
use fighting_card.Base.Xor.{bit_xor, bit_xor_cancel_left, bit_xor-lt}
use fighting_card.Buffer.Words.{to_le, of_le-to_le, length-to_le}
use fighting_card.MurmurHash.{
  multiplier, times_m, shift_mix, mix_word, finish, read_word, word_count, mix_words, mix_tail,
  start, murmur_hash64, hash_seed, hash_number,
}
use fighting_card.MurmurHash.Mix.{
  undo_times, times_m-lt, undo_times-lt, undo_times-times_m, times_m-undo_times, shift_mix-lt,
  shift_mix-involutive,
}

abbrev start_8 : ℕ
start_8 = start 8 hash_seed

start_8-lt : start_8 < 2 ^ 64
unfolding start
start_8-lt = bit_xor-lt 64 hash_seed (u64 (8 * multiplier)) (omega arith) (omega arith)

-- The loop and the last steps backwards.
unfoldable pub undo_word : ℕ → ℕ → ℕ
undo_word h k = undo_times (shift_mix (undo_times (bit_xor h (undo_times k))))

unfoldable pub undo_finish : ℕ → ℕ
undo_finish h = shift_mix (undo_times (shift_mix h))

unfoldable pub unhash : ℕ → ℕ
unhash h = undo_word start_8 (undo_finish h)

undo_finish-lt : (h : ℕ) → undo_finish h < 2 ^ 64
unfolding undo_finish
undo_finish-lt h = shift_mix-lt _ (undo_times-lt _)

undo_finish-finish : (h : ℕ) → h < 2 ^ 64 → undo_finish (finish h) ≡ h
unfolding finish undo_finish
undo_finish-finish h fits =
    rw
      (
        shift_mix-involutive (times_m (shift_mix h)) (times_m-lt _),
        undo_times-times_m (shift_mix h) (shift_mix-lt h fits),
        shift_mix-involutive h fits,
      )
      refl

finish-undo_finish : (h : ℕ) → h < 2 ^ 64 → finish (undo_finish h) ≡ h
unfolding finish undo_finish
finish-undo_finish h fits =
    rw
      (
        shift_mix-involutive (undo_times (shift_mix h)) (undo_times-lt _),
        times_m-undo_times (shift_mix h) (shift_mix-lt h fits),
        shift_mix-involutive h fits,
      )
      refl

undo_word-mix_word : (h k : ℕ) → h < 2 ^ 64 → k < 2 ^ 64 → undo_word h (mix_word h k) ≡ k
unfolding mix_word undo_word
undo_word-mix_word h k start_fits fits =
    rw
      (
        undo_times-times_m (bit_xor h (times_m (shift_mix (times_m k))))
            (bit_xor-lt 64 _ _ start_fits (times_m-lt _)),
        bit_xor_cancel_left h (times_m (shift_mix (times_m k))),
        undo_times-times_m (shift_mix (times_m k)) (shift_mix-lt _ (times_m-lt _)),
        shift_mix-involutive (times_m k) (times_m-lt k),
        undo_times-times_m k fits,
      )
      refl

mix_word-undo_word : (h k : ℕ) → h < 2 ^ 64 → k < 2 ^ 64 → mix_word h (undo_word h k) ≡ k
unfolding mix_word undo_word
mix_word-undo_word h k start_fits fits =
    rw
      (
        times_m-undo_times (shift_mix (undo_times (bit_xor h (undo_times k))))
            (shift_mix-lt _ (undo_times-lt _)),
        shift_mix-involutive (undo_times (bit_xor h (undo_times k))) (undo_times-lt _),
        times_m-undo_times (bit_xor h (undo_times k))
            (bit_xor-lt 64 _ _ start_fits (undo_times-lt _)),
        bit_xor_cancel_left h (undo_times k),
        times_m-undo_times k fits,
      )
      refl

read_word-to_le : (n : ℕ) → n < 2 ^ 64 → read_word (to_le 8 n) ≡ some n
unfolding read_word
read_word-to_le n fits = rw (length-to_le 8 n, whole, of_le-to_le 8 n (omega (arith, fits))) refl
  where
    whole : take 8 (to_le 8 n) ≡ to_le 8 n
    whole = ap (λ k. take k (to_le 8 n)) (sym (length-to_le 8 n)) ∙ take_all (to_le 8 n)

-- What `Hash` computes for a number.
hash_number-mix : (n : ℕ) → n < 2 ^ 64 → hash_number n ≡ some (finish (mix_word start_8 n))
unfolding hash_number murmur_hash64 word_count mix_words mix_tail
hash_number-mix n fits = rw (read_word-to_le n fits) refl

-- `Hash` has a result of 64 bits for every number of 64 bits, and every `h` of 64 bits is the
-- result for exactly one of them, `unhash h`.
pub hash_number-unhash :
    (h n : ℕ)
    → h < 2 ^ 64
    → n < 2 ^ 64
    → ((hash_number n ≡ some h) ↔ (n ≡ unhash h)) × (unhash h < 2 ^ 64)
unfolding unhash
hash_number-unhash h n fits number = ((to, from), undo_word-lt)
  where
    undo_word-lt : undo_word start_8 (undo_finish h) < 2 ^ 64
    undo_word-lt = unfold undo_word in undo_times-lt _

    mixed-lt : mix_word start_8 n < 2 ^ 64
    mixed-lt = unfold mix_word in times_m-lt _

    to : hash_number n ≡ some h → n ≡ undo_word start_8 (undo_finish h)
    to e =
        let mixed = hash_number-mix n number in
        let same : finish (mix_word start_8 n) ≡ h = cc in
        rw (← same, undo_finish-finish (mix_word start_8 n) mixed-lt)
          (sym (undo_word-mix_word start_8 n start_8-lt number))

    from : n ≡ undo_word start_8 (undo_finish h) → hash_number n ≡ some h
    from e =
        hash_number-mix n number
        ∙ rw
            (
              e,
              mix_word-undo_word start_8 (undo_finish h) start_8-lt (undo_finish-lt h),
              finish-undo_finish h fits,
            )
            refl
