-- ===== src/MurmurHash/Tests.antt =====
-- The number 42, and the text "fighting-card" with a word and a tail.
use fighting_card.Base.{
  ℕ, ◌-◌, ◌*◌, ◌^◌, ◌%◌, ◌≡◌, ◌≤◌, ◌<◌, ◌↔◌, refl, some, none, [], ◌∷◌, ◌++◌, arith, length,
  replicate, length-replicate,
}
use fighting_card.Base.Text.{Text}
use fighting_card.MurmurHash.{
  hash_number, hash_string, murmur_hash64, word_count, mix_words, mix_tail, mix_byte, mix_word,
  finish, times_m, shift_mix, start, read_word,
}
use fighting_card.MurmurHash.Number.{unhash, hash_number-unhash}
use fighting_card.MurmurHash.Strings.{hash_string-none, hash_string-wraps}
use fighting_card.Buffer.Words.{to_le, of_le}

abbrev hash_of_42 : ℕ
hash_of_42 = 3245937271644619095

hash_42 : hash_number 42 ≡ some hash_of_42
unfolding hash_number murmur_hash64 word_count mix_words mix_tail mix_word finish times_m shift_mix
    start read_word to_le of_le
hash_42 = refl

abbrev name : Text
name = 102 ∷ 105 ∷ 103 ∷ 104 ∷ 116 ∷ 105 ∷ 110 ∷ 103 ∷ 45 ∷ 99 ∷ 97 ∷ 114 ∷ 100 ∷ []

hash_name : hash_string name ≡ some 4353365413182712036
unfolding hash_string murmur_hash64 word_count mix_words mix_tail mix_byte mix_word finish times_m
    shift_mix start read_word of_le
hash_name = refl

hash_number-unhash_example :
    ((hash_number 42 ≡ some hash_of_42) ↔ (42 ≡ unhash hash_of_42)) × (unhash hash_of_42 < 2 ^ 64)
hash_number-unhash_example = hash_number-unhash hash_of_42 42 (omega arith) (omega arith)

hash_string-none_example :
    (hash_string name ≡ none)
    ↔ ((2 ^ 31 ≤ length name % 2 ^ 32) × (length name % 2 ^ 32 ≤ 2 ^ 32 - 8))
hash_string-none_example = hash_string-none name

text_of : (n : ℕ) → (s : Text) × (length s ≡ n)
text_of n = (replicate n 120, length-replicate n 120)

hash_string-wraps_example :
    (h : ℕ) × (hash_string name ≡ some h)
    × (hash_string (name ++ (text_of (1 * 2 ^ 32)).0) ≡ some h)
    × (h < 2 ^ 64)
hash_string-wraps_example =
    hash_string-wraps name (text_of (1 * 2 ^ 32)).0 1 (omega arith) (text_of (1 * 2 ^ 32)).1
