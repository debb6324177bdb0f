-- ===== src/MurmurHash/Strings.antt =====
-- `Hash` of a string, whose size `MurmurHash64` takes as an `int`.
use fighting_card.Base.{
  ℕ, zero, suc, ◌+◌, ◌-◌, ◌*◌, ◌/◌, ◌%◌, ◌^◌, ◌≡◌, ◌≤◌, ◌<◌, ◌↔◌, ◌⊎◌, ◌∙◌, refl, sym, ap, some,
  none, inl, inr, [], ◌++◌, arith, length, take, drop, ltb, leb, Bool-cases, append-nil,
  length-drop, length-append, take-append, drop-append, get_elem?-append, get_elem?-some, lt→ltb,
  le→ltb-false,
}
use fighting_card.Base.Text.{Text}
use fighting_card.Base.Word.{u32}
use fighting_card.Base.Xor.{bit_xor}
use fighting_card.Buffer.Words.{of_le}
use fighting_card.MurmurHash.{
  times_m, mix_word, finish, read_word, word_count, mix_words, mix_byte, mix_tail, start,
  murmur_hash64, hash_seed, hash_string,
}
use fighting_card.MurmurHash.Mix.{finish-lt}

-- Words that are there are read, also if more bytes follow.
read_word-append :
    (key rest : Text) → 8 ≤ length key → read_word (key ++ rest) ≡ some (of_le (take 8 key))
unfolding read_word
read_word-append key rest enough =
    rw
      (
        le→ltb-false (length (key ++ rest)) 8 (omega (arith, enough, length-append key rest)),
        take-append 8 key rest enough,
      )
      refl

mix_words-append :
    (n : ℕ) (key : Text) (h : ℕ)
    → 8 * n ≤ length key
    → (mixed : ℕ) × (left : Text) × (length left + 8 * n ≡ length key)
      × ((more : Text) → mix_words n (key ++ more) h ≡ some (mixed, left ++ more))
unfolding mix_words
mix_words-append zero key h enough = (h, key, omega arith, λ more. refl)
mix_words-append (suc n) key h enough =
    let k = of_le (take 8 key) in
    let enough_left : 8 * n ≤ length (drop 8 key) = omega (arith, enough, length-drop 8 key) in
    let after = mix_words-append n (drop 8 key) (mix_word h k) enough_left in
    (
      after.0,
      after.1,
      omega (arith, after.2, length-drop 8 key, enough),
      λ more.
          rw
            (
              read_word-append key more (omega (arith, enough)),
              drop-append 8 key more (omega (arith, enough)),
              after.3 more,
            )
            refl,
    )

mix_byte-append :
    (i : ℕ) (data2 : Text) (h : ℕ)
    → i < length data2
    → (mixed : ℕ) × ((more : Text) → mix_byte i (data2 ++ more) h ≡ some mixed)
unfolding mix_byte
mix_byte-append i data2 h there =
    let byte = get_elem?-some data2 i there in
    (
      bit_xor h (byte.0 * 2 ^ (8 * i)),
      λ more. rw (get_elem?-append data2 more i there, byte.1) refl,
    )

mix_tail-append :
    (i : ℕ) (data2 : Text) (h : ℕ)
    → i ≤ length data2
    → (mixed : ℕ) × ((more : Text) → mix_tail i (data2 ++ more) h ≡ some mixed)
unfolding mix_tail
mix_tail-append zero data2 h there = (h, λ more. refl)
mix_tail-append (suc zero) data2 h there =
    let byte = mix_byte-append 0 data2 h (omega (arith, there)) in
    (times_m byte.0, λ more. rw (byte.1 more) refl)
mix_tail-append (suc (suc i)) data2 h there =
    let byte = mix_byte-append (suc i) data2 h (omega (arith, there)) in
    let below = mix_tail-append (suc i) data2 byte.0 (omega (arith, there)) in
    (below.0, λ more. rw (byte.1 more, below.1 more) refl)

-- The bytes that `len` asks for are there.
murmur_hash64-append :
    (key : Text) (len seed n : ℕ)
    → word_count len ≡ some n
    → 8 * n + len % 8 ≤ length key
    → (h : ℕ) × ((more : Text) → murmur_hash64 (key ++ more) len seed ≡ some (finish h))
unfolding murmur_hash64
murmur_hash64-append key len seed n words there =
    let loop = mix_words-append n key (start len seed) (omega (arith, there)) in
    let tail = mix_tail-append (len % 8) loop.1 loop.0 (omega (arith, there, loop.2)) in
    (tail.0, λ more. rw (words, loop.3 more, tail.1 more) refl)

abbrev IsOutside : ℕ → Type 0
IsOutside len = (2 ^ 31 ≤ len) × (len ≤ 2 ^ 32 - 8)

outside-none : (key : Text) (len seed : ℕ) → IsOutside len → murmur_hash64 key len seed ≡ none
unfolding murmur_hash64 word_count
outside-none key len seed out =
    rw (le→ltb-false len (2 ^ 31) out.0, le→ltb-false (2 ^ 32 - len) 8 (omega (arith, out.1))) refl

-- Otherwise there is a result, which bytes behind the end do not change.
inside-append :
    (key : Text) (len seed : ℕ)
    → len < 2 ^ 32
    → len ≤ length key
    → (len < 2 ^ 31) ⊎ (2 ^ 32 - 8 < len)
    → (h : ℕ) × ((more : Text) → murmur_hash64 (key ++ more) len seed ≡ some (finish h))
inside-append key len seed fits there (inl small) =
    murmur_hash64-append key len seed (len / 8) words (omega (arith, there))
  where
    words : word_count len ≡ some (len / 8)
    words = unfold word_count in rw (lt→ltb len (2 ^ 31) small) refl
inside-append key len seed fits there (inr large) =
    murmur_hash64-append key len seed 0 words (omega (arith, there, large))
  where
    words : word_count len ≡ some 0
    words =
        unfold word_count in
        rw
          (
            le→ltb-false len (2 ^ 31) (omega (arith, large)),
            lt→ltb (2 ^ 32 - len) 8 (omega (arith, large, fits)),
          )
          refl

inside-some :
    (str : Text)
    → (u32 (length str) < 2 ^ 31) ⊎ (2 ^ 32 - 8 < u32 (length str))
    → (h : ℕ) × (hash_string str ≡ some (finish h))
unfolding hash_string
inside-some str side =
    let whole = inside-append str (u32 (length str)) hash_seed (omega arith) (omega arith) side in
    (
      whole.0,
      ap (λ s. murmur_hash64 s (u32 (length str)) hash_seed) (sym (append-nil str)) ∙ whole.1 [],
    )

-- `Hash` of a string reads outside the string exactly if its size, as an `int`, is -8 or less.
pub hash_string-none :
    (str : Text)
    → (hash_string str ≡ none)
      ↔ ((2 ^ 31 ≤ length str % 2 ^ 32) × (length str % 2 ^ 32 ≤ 2 ^ 32 - 8))
hash_string-none str = (
  λ fault. elim (Bool-cases (ltb (u32 (length str)) (2 ^ 31))) [
    | inl small ↦ absurd (some_not (inl (ground (arith, small))) fault)
    | inr large ↦ elim (Bool-cases (leb (u32 (length str)) (2 ^ 32 - 8))) [
      | inl out ↦ (ground (arith, large), ground (arith, out))
      | inr beyond ↦ absurd (some_not (inr (ground (arith, beyond))) fault)
    ]
  ],
  λ out. unfold hash_string in outside-none str (u32 (length str)) hash_seed out,
)
  where
    some_not :
        (u32 (length str) < 2 ^ 31) ⊎ (2 ^ 32 - 8 < u32 (length str)) → hash_string str ≡ none → ⊥
    some_not side fault = let whole = inside-some str side in cc

-- A string shorter than 2 ^ 31 bytes has a hash, of 64 bits, and every string that goes on with a
-- multiple of 2 ^ 32 bytes has the same.
pub hash_string-wraps :
    (str rest : Text) (k : ℕ)
    → length str < 2 ^ 31
    → length rest ≡ k * 2 ^ 32
    → (h : ℕ) × (hash_string str ≡ some h) × (hash_string (str ++ rest) ≡ some h) × (h < 2 ^ 64)
unfolding hash_string
hash_string-wraps str rest k short long =
    let size : u32 (length (str ++ rest)) ≡ u32 (length str) =
      omega (arith, short, long, length-append str rest) in
    let whole =
      inside-append str (u32 (length str)) hash_seed (omega arith) (omega arith)
        (inl (omega (arith, short))) in
    (
      finish whole.0,
      ap (λ s. murmur_hash64 s (u32 (length str)) hash_seed) (sym (append-nil str)) ∙ whole.1 [],
      ap (λ len. murmur_hash64 (str ++ rest) len hash_seed) size ∙ whole.1 rest,
      finish-lt whole.0,
    )
