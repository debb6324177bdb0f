-- ===== src/ConsistentMap.antt =====
-- common/consistent_map.h: a ring of nodes by their hashes. The `std::map` is the list of its
-- entries by rising key; keys are unsigned numbers.
pub mod Owner
pub mod Moves
pub mod Orders
pub mod Tests
use fighting_card.Base.{
  ℕ, Bool, true, false, Option, none, some, List, [], ◌∷◌, ltb, ◌==◌, if◌then◌else◌, length,
}
use fighting_card.Base.Word.{u32}

module _ {V : Type 0} where
  -- `insert`, which keeps an entry that is there, and whether it has inserted.
  unfoldable pub insert : ℕ → V → List (ℕ × V) → List (ℕ × V) × Bool
  insert hash node [] = ((hash, node) ∷ [], true)
  insert hash node ((k, old) ∷ entries) =
      let rest = insert hash node entries in
      if ltb hash k
      then ((hash, node) ∷ (k, old) ∷ entries, true)
      else if hash == k
      then ((k, old) ∷ entries, false)
      else ((k, old) ∷ rest.0, rest.1)

  -- `update`, by `operator[]`.
  unfoldable pub update : ℕ → V → List (ℕ × V) → List (ℕ × V)
  update hash node [] = (hash, node) ∷ []
  update hash node ((k, old) ∷ entries) =
      let rest = update hash node entries in
      if ltb hash k
      then (hash, node) ∷ (k, old) ∷ entries
      else if hash == k
      then (k, node) ∷ entries
      else (k, old) ∷ rest

  -- The first entry whose key is not less than the hash; `none` is `end()`.
  unfoldable pub lower_bound : ℕ → List (ℕ × V) → Option (ℕ × V)
  lower_bound hash [] = none
  lower_bound hash ((k, node) ∷ entries) =
      let rest = lower_bound hash entries in if ltb k hash then rest else some (k, node)

  unfoldable pub begin : List (ℕ × V) → Option (ℕ × V)
  begin [] = none
  begin (e ∷ entries) = some e

  abbrev pub or_begin : List (ℕ × V) → Option (ℕ × V) → Option (ℕ × V)
  or_begin entries (some e) = some e
  or_begin entries none = begin entries

  abbrev pub node_of : Option (ℕ × V) → Option V
  node_of none = none
  node_of (some e) = some e.1

  -- `find`: the node that it stores, if it returns true.
  unfoldable pub find : ℕ → List (ℕ × V) → Option V
  find hash entries = node_of (or_begin entries (lower_bound hash entries))

  unfoldable pub erase_key : ℕ → List (ℕ × V) → List (ℕ × V)
  erase_key hash [] = []
  erase_key hash ((k, node) ∷ entries) =
      let rest = erase_key hash entries in if k == hash then entries else (k, node) ∷ rest

  -- `erase`, whose parameter is a `uint32_t` for any `K`.
  unfoldable pub erase : ℕ → List (ℕ × V) → List (ℕ × V)
  erase hash entries = erase_key (u32 hash) entries
