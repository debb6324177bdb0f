-- ===== src/ConsistentMap/Owner.antt =====
-- Which node a hash belongs to.
use fighting_card.Base.{
  ℕ, ◌≡◌, ◌≢◌, ◌≤◌, ◌<◌, ◌⊎◌, refl, inl, inr, false, none, some, List, [], ◌∷◌, arith, ltb, ◌==◌,
  ==_iff, true, Bool-cases, All,
}
use fighting_card.Base.Dict
use fighting_card.Base.Dict.{nat_Eq}
use fighting_card.ConsistentMap.{lower_bound, begin, find}

module _ {V : Type 0} where
  -- The entries stand by rising key.
  abbrev pub Sorted : List (ℕ × V) → Type 0
  Sorted [] = Unit
  Sorted (e ∷ entries) = All (λ f. e.0 < f.0) entries × Sorted entries

  abbrev At : List (ℕ × V) → ℕ × V → Type 0
  At entries e = Dict.find e.0 entries ≡ some e.1

  -- The entry that a hash belongs to: the first at or behind it, or, when all are before it, the
  -- first of all.
  pub record IsOwner (h : ℕ) (entries : List (ℕ × V)) (e : ℕ × V) : Type 0 where
    pub present : Dict.find e.0 entries ≡ some e.1
    pub next :
        ((h ≤ e.0) × All (λ f. h ≤ f.0 → e.0 ≤ f.0) entries)
        ⊎ (All (λ f. f.0 < h) entries × All (λ f. e.0 ≤ f.0) entries)

  greater-weaken :
      (i k : ℕ) (entries : List (ℕ × V))
      → i ≤ k
      → All (λ f. k < f.0) entries
      → All (λ f. i ≤ f.0) entries
  greater-weaken i k [] le a = tt
  greater-weaken i k (f ∷ entries) le a = (omega (arith, a.0), greater-weaken i k entries le a.1)

  All-map_or :
      (h i : ℕ) (entries : List (ℕ × V))
      → All (λ f. i < f.0) entries
      → All (λ f. h ≤ f.0 → i ≤ f.0) entries
  All-map_or h i [] a = tt
  All-map_or h i (f ∷ entries) a = (λ le. omega (arith, a.0), All-map_or h i entries a.1)

  At-greater :
      (k : ℕ) (entries : List (ℕ × V)) (e : ℕ × V)
      → All (λ f. k < f.0) entries
      → At entries e
      → k < e.0
  unfolding Dict.find
  At-greater k [] e a at = absurd (cc at)
  At-greater k ((i, w) ∷ entries) e a at = elim (Bool-cases (i == e.0)) [
    | inl same ↦ omega (arith, a.0, (==_iff i e.0).0 same)
    | inr other ↦ At-greater k entries e a.1 (rw other at at)
  ]

  At-later :
      (k : ℕ) (w : V) (entries : List (ℕ × V)) (e : ℕ × V)
      → All (λ f. k < f.0) entries
      → At entries e
      → At ((k, w) ∷ entries) e
  unfolding Dict.find
  At-later k w entries e a at = rw other at
    where
      other : (k == e.0) ≡ false
      other = let greater = At-greater k entries e a at in ground arith

  At-first : (k : ℕ) (w : V) (entries : List (ℕ × V)) → At ((k, w) ∷ entries) (k, w)
  unfolding Dict.find
  At-first k w entries = ground arith

  -- What `lower_bound` finds.
  IsFirst : ℕ → List (ℕ × V) → ℕ × V → Type 0
  IsFirst h entries e = At entries e × (h ≤ e.0) × All (λ f. h ≤ f.0 → e.0 ≤ f.0) entries

  lower_bound-cases :
      (h : ℕ) (entries : List (ℕ × V))
      → Sorted entries
      → ((lower_bound h entries ≡ none) × All (λ f. f.0 < h) entries)
        ⊎ ((e : ℕ × V) × (lower_bound h entries ≡ some e) × IsFirst h entries e)
  unfolding lower_bound IsFirst
  lower_bound-cases h [] s = inl (refl, tt)
  lower_bound-cases h ((k, w) ∷ entries) s = elim (Bool-cases (ltb k h)) [
    | inr here ↦ inr (
      (k, w),
      rw here,
      (At-first k w entries, ground (arith, here), (λ le. omega arith, All-map_or h k entries s.0)),
    )
    | inl before ↦ elim (lower_bound-cases h entries s.1) [
      | inl (nowhere, less) ↦ inl (rw before nowhere, (ground (arith, before), less))
      | inr (e, found, (at, le, least)) ↦ inr (
        e,
        rw before found,
        (At-later k w entries e s.0 at, le, (λ out. ground (arith, before, out), least)),
      )
    ]
  ]

  -- In a map that is not empty every hash has an owner, and `find` gives the owner's node.
  pub find-IsOwner :
      (h : ℕ) (entries : List (ℕ × V))
      → Sorted entries
      → entries ≢ []
      → (e : ℕ × V) × (find h entries ≡ some e.1) × IsOwner h entries e
  unfolding find IsFirst begin
  find-IsOwner h [] s some_entry = absurd (some_entry refl)
  find-IsOwner h ((k, w) ∷ entries) s some_entry = elim (lower_bound-cases h ((k, w) ∷ entries) s) [
    | inr (e, found, (at, le, least)) ↦
        (e, rw found, record { present = at; next = inl (le, least) })
    | inl (nowhere, less) ↦ (
      (k, w),
      rw nowhere,
      record {
        present = At-first k w entries;
        next = inr (less, (omega arith, greater-weaken k k entries (omega arith) s.0));
      },
    )
  ]

  lower_bound-exact :
      (k : ℕ) (v : V) (entries : List (ℕ × V))
      → Sorted entries
      → Dict.find k entries ≡ some v
      → lower_bound k entries ≡ some (k, v)
  unfolding lower_bound Dict.find
  lower_bound-exact k v [] s at = absurd (cc at)
  lower_bound-exact k v ((j, w) ∷ entries) s at = elim (Bool-cases (j == k)) [
    | inl same ↦ rw (here ((==_iff j k).0 same)) (cc (rw same at at, (==_iff j k).0 same))
    | inr other ↦
        let later = rw other at at in
        rw (before (At-greater j entries (k, v) s.0 later))
          (lower_bound-exact k v entries s.1 later)
  ]
    where
      here : j ≡ k → ltb j k ≡ false
      here e = ground (arith, e)

      before : j < k → ltb j k ≡ true
      before lt = ground (arith, lt)

  -- A hash that is a key belongs to its own entry.
  pub find-exact :
      (k : ℕ) (v : V) (entries : List (ℕ × V))
      → Sorted entries
      → Dict.find k entries ≡ some v
      → find k entries ≡ some v
  unfolding find
  find-exact k v entries s at = rw (lower_bound-exact k v entries s at)
