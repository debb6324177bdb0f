-- ===== src/ConsistentMap/Tests.antt =====
-- A ring of the nodes 1 at 10, 2 at 20 and 3 at 30.
use fighting_card.Base.{ℕ, ◌+◌, ◌^◌, ◌≡◌, ◌⊎◌, refl, some, List, [], ◌∷◌, arith}
use fighting_card.Base.Dict
use fighting_card.Base.Dict.{nat_Eq}
use fighting_card.ConsistentMap.{insert, find, erase, lower_bound}
use fighting_card.ConsistentMap.Owner.{Sorted, IsOwner, find-IsOwner}
use fighting_card.ConsistentMap.Orders.{insert_all, insert_all-Perm}
use mathlib.Core.List.Perm
use fighting_card.ConsistentMap.Moves.{find-insert, find-erase, erase_wide, insert-Sorted}

abbrev ring : List (ℕ × ℕ)
ring = (10, 1) ∷ (20, 2) ∷ (30, 3) ∷ []

ring-Sorted : Sorted ring
ring-Sorted = omega arith

find-IsOwner_example : (e : ℕ × ℕ) × (find 35 ring ≡ some e.1) × IsOwner 35 ring e
find-IsOwner_example = find-IsOwner 35 ring ring-Sorted (λ e. cc e)

insert-Sorted_example : Sorted (insert 15 4 ring).0
insert-Sorted_example = insert-Sorted 15 4 ring ring-Sorted

find-insert_example :
    (find 12 (insert 15 4 ring).0 ≡ find 12 ring) ⊎ (find 12 (insert 15 4 ring).0 ≡ some 4)
find-insert_example = find-insert 12 15 4 ring

find-erase_example : find 25 (erase 20 ring) ≡ find 25 ring
find-erase_example =
    find-erase 25 20 ring (30, 3) (omega arith) (unfold lower_bound in refl) (omega arith)

abbrev wide : List (ℕ × ℕ)
wide = (2 ^ 32 + 5, 1) ∷ []

erase_wide_example : find (2 ^ 32 + 5) (erase (2 ^ 32 + 5) wide) ≡ some 1
erase_wide_example =
    erase_wide (2 ^ 32 + 5) 1 wide (omega arith) (unfold Dict.find in refl)
      (unfold Dict.find in refl)

abbrev nodes : List (ℕ × ℕ)
nodes = (30, 3) ∷ (10, 1) ∷ (20, 2) ∷ []

abbrev reordered : List (ℕ × ℕ)
reordered = (10, 1) ∷ (30, 3) ∷ (20, 2) ∷ []

insert_all-Perm_example : insert_all nodes [] ≡ insert_all reordered []
insert_all-Perm_example =
    insert_all-Perm [] (hlevel) (Perm.swap (10, 1) (30, 3) ((20, 2) ∷ [])) (omega arith)
