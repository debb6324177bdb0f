-- ===== src/ConsistentMap/Moves.antt =====
-- How the owners of the hashes change when a node joins or leaves.
use fighting_card.Base.{
  ℕ, ◌%◌, ◌^◌, ◌≡◌, ◌≢◌, ◌<◌, ◌⊎◌, ◌∙◌, refl, sym, ap, inl, inr, none, some, List, [], ◌∷◌, arith,
  ltb, ◌==◌, ==_iff, Bool-cases, Option-cases, All,
}
use fighting_card.Base.Word.{u32}
use fighting_card.Base.Dict
use fighting_card.Base.Dict.{nat_Eq}
use fighting_card.ConsistentMap.{
  insert, lower_bound, begin, or_begin, node_of, find, erase_key, erase,
}
use fighting_card.ConsistentMap.Owner.{Sorted, find-exact}

module _ {V : Type 0} where
  lower_bound-insert :
      (h k : ℕ) (v : V) (entries : List (ℕ × V))
      → (lower_bound h (insert k v entries).0 ≡ lower_bound h entries)
        ⊎ (lower_bound h (insert k v entries).0 ≡ some (k, v))
  unfolding insert lower_bound
  lower_bound-insert h k v [] = elim (Bool-cases (ltb k h)) [
    | inl e ↦ inl (rw e)
    | inr e ↦ inr (rw e)
  ]
  lower_bound-insert h k v ((i, w) ∷ entries) = ground (arith, lower_bound-insert h k v entries)

  begin-insert :
      (k : ℕ) (v : V) (entries : List (ℕ × V))
      → (begin (insert k v entries).0 ≡ begin entries)
        ⊎ (begin (insert k v entries).0 ≡ some (k, v))
  unfolding insert begin
  begin-insert k v [] = inr refl
  begin-insert k v ((i, w) ∷ entries) = ground arith

  -- A node that joins takes hashes for itself, and every other hash stays with its node.
  pub find-insert :
      (h k : ℕ) (v : V) (entries : List (ℕ × V))
      → (find h (insert k v entries).0 ≡ find h entries) ⊎ (find h (insert k v entries).0 ≡ some v)
  unfolding find
  find-insert h k v entries = elim (lower_bound-insert h k v entries) [
    | inr new ↦ inr (rw new)
    | inl same ↦ elim (Option-cases (lower_bound h entries)) [
      | inr (e, found) ↦ inl (rw (same, found))
      | inl last ↦ elim (begin-insert k v entries) [
        | inl first ↦ inl (rw (same, last, first))
        | inr new ↦ inr (rw (same, last, new))
      ]
    ]
  ]

  greater-insert :
      (i k : ℕ) (v : V) (entries : List (ℕ × V))
      → i < k
      → All (λ f. i < f.0) entries
      → All (λ f. i < f.0) (insert k v entries).0
  unfolding insert
  greater-insert i k v [] lt a = (lt, tt)
  greater-insert i k v ((j, w) ∷ entries) lt a =
      ground (arith, greater-insert i k v entries lt a.1, a.0, a.1)

  less-All :
      (i k : ℕ) (entries : List (ℕ × V))
      → i < k
      → All (λ f. k < f.0) entries
      → All (λ f. i < f.0) entries
  less-All i k [] lt a = tt
  less-All i k (f ∷ entries) lt a = (omega (arith, a.0, lt), less-All i k entries lt a.1)

  -- `insert` keeps the entries in order.
  pub insert-Sorted :
      (k : ℕ) (v : V) (entries : List (ℕ × V)) → Sorted entries → Sorted (insert k v entries).0
  unfolding insert
  insert-Sorted k v [] s = (tt, tt)
  insert-Sorted k v ((j, w) ∷ entries) s = elim (Bool-cases (ltb k j)) [
    | inl lt ↦ rw lt ((ground (arith, lt), less-All k j entries (ground (arith, lt)) s.0), s)
    | inr ge ↦ elim (Bool-cases (k == j)) [
      | inl same ↦ rw (ge, same) s
      | inr other ↦
          rw (ge, other)
            (
              greater-insert j k v entries (ground (arith, ge, other)) s.0,
              insert-Sorted k v entries s.1,
            )
    ]
  ]

  lower_bound-erase :
      (h k : ℕ) (entries : List (ℕ × V)) (e : ℕ × V)
      → lower_bound h entries ≡ some e
      → e.0 ≢ k
      → lower_bound h (erase_key k entries) ≡ some e
  unfolding lower_bound erase_key
  lower_bound-erase h k [] e found ne = found
  lower_bound-erase h k ((j, w) ∷ entries) e found ne =
      ground (arith, lower_bound-erase h k entries e)

  lower_bound-erase_none :
      (h k : ℕ) (entries : List (ℕ × V))
      → lower_bound h entries ≡ none
      → lower_bound h (erase_key k entries) ≡ none
  unfolding lower_bound erase_key
  lower_bound-erase_none h k [] found = found
  lower_bound-erase_none h k ((j, w) ∷ entries) found =
      ground (arith, lower_bound-erase_none h k entries)

  begin-erase :
      (k : ℕ) (entries : List (ℕ × V)) (e : ℕ × V)
      → begin entries ≡ some e
      → e.0 ≢ k
      → begin (erase_key k entries) ≡ some e
  unfolding begin erase_key
  begin-erase k [] e found ne = found
  begin-erase k ((j, w) ∷ entries) e found ne = elim (Bool-cases (j == k)) [
    | inl same ↦ absurd (ne (cc (found, (==_iff j k).0 same)))
    | inr other ↦ rw other found
  ]

  -- A node that leaves gives up its hashes, and every other hash stays with its node.
  pub find-erase :
      (h k : ℕ) (entries : List (ℕ × V)) (e : ℕ × V)
      → k < 2 ^ 32
      → or_begin entries (lower_bound h entries) ≡ some e
      → e.0 ≢ k
      → find h (erase k entries) ≡ find h entries
  unfolding find erase
  find-erase h k entries e small owner ne =
      rw same_key (elim (Option-cases (lower_bound h entries)) [
        | inr (f, found) ↦
            rw (found, lower_bound-erase h k entries f found (λ same. ne (cc (same, found, owner))))
        | inl nowhere ↦
            rw
              (
                nowhere,
                lower_bound-erase_none h k entries nowhere,
                begin-erase k entries e (sym (rw nowhere refl) ∙ owner) ne,
              )
              (ap node_of {x = some e} (cc (owner, nowhere)))
      ])
    where
      same_key : u32 k ≡ k
      same_key = omega (arith, small)

  erase_key-absent :
      (k : ℕ) (entries : List (ℕ × V)) → Dict.find k entries ≡ none → erase_key k entries ≡ entries
  unfolding erase_key Dict.find
  erase_key-absent k [] h = refl
  erase_key-absent k ((j, w) ∷ entries) h = elim (Bool-cases (j == k)) [
    | inl same ↦ absurd (cc (rw same at h))
    | inr other ↦ rw (other, erase_key-absent k entries (rw other at h))
  ]

  -- `erase` of a node whose key has more than 32 bits leaves it in the map, which finds it as
  -- before, if the low 32 bits of the key are no key themselves.
  pub erase_wide :
      (k : ℕ) (v : V) (entries : List (ℕ × V))
      → Sorted entries
      → Dict.find k entries ≡ some v
      → Dict.find (k % 2 ^ 32) entries ≡ none
      → find k (erase k entries) ≡ some v
  unfolding erase
  erase_wide k v entries s at h =
      rw (erase_key-absent (k % 2 ^ 32) entries h) (find-exact k v entries s at)
