-- ===== src/Base/Dict.antt =====
-- `std::map` and `std::unordered_map` where only the bindings matter: an association list. An
-- insertion keeps a binding that is there, as `insert` of both containers does.
use Prim.Native.Nat.{ℕ}
use mathlib.Core.Path.{◌≡◌, refl}
use mathlib.Core.Logic.{◌↔◌, inl, inr}
use mathlib.Core.Bool.{Bool, true, false}
use mathlib.Core.List.{List, [], ◌∷◌}
use mathlib.Core.Option.{Option, none, some}
use native.Mathlib.Omega.{arith}
use fighting_card.Base.Tests.{if◌then◌else◌, ◌==◌, ==_iff, Bool-cases}
use fighting_card.Base.Text.{Text, text_eq, text_eq_iff}

pub record Eq {ℓ} (K : Type ℓ) : Type ℓ where
  pub beq : K → K → Bool
  pub beq_iff : (a b : K) → (beq a b ≡ true) ↔ (a ≡ b)

instance abbrev pub nat_Eq : Eq ℕ
nat_Eq = record { beq = ◌==◌; beq_iff = ==_iff }

instance abbrev pub text_Eq : Eq Text
text_Eq = record { beq = text_eq; beq_iff = text_eq_iff }

abbrev pub Dict {ℓ κ} : Type ℓ → Type κ → Type (ℓ ⊔ κ)
Dict K V = List (K × V)

pub beq_self {ℓ} : {K : Type ℓ} ⦃e : Eq K⦄ (k : K) → e.beq k k ≡ true
beq_self ⦃e⦄ k = (e.beq_iff k k).1 refl

module _ {ℓ κ} {K : Type ℓ} {V : Type κ} ⦃e : Eq K⦄ where
  unfoldable pub find : K → Dict K V → Option V
  find k [] = none
  find k ((j, v) ∷ m) = if e.beq j k then some v else find k m

  abbrev insert_at : K → V → Dict K V → Option V → Dict K V × Bool
  insert_at k v m none = ((k, v) ∷ m, true)
  insert_at k v m (some old) = (m, false)

  unfoldable pub insert : K → V → Dict K V → Dict K V × Bool
  unfolding find
  insert k v m = insert_at k v m (find k m)

  unfoldable pub erase : K → Dict K V → Dict K V
  erase k [] = []
  erase k ((j, v) ∷ m) = if e.beq j k then erase k m else (j, v) ∷ erase k m

  pub find-insert_new :
      (k j : K) (v : V) (m : Dict K V)
      → find k m ≡ none
      → find j (insert k v m).0 ≡ (if e.beq k j then some v else find j m)
  unfolding insert find
  find-insert_new k j v m h = rw h

  pub insert_new : (k : K) (v : V) (m : Dict K V) → find k m ≡ none → (insert k v m).1 ≡ true
  unfolding insert
  insert_new k v m h = rw h

  pub insert_old :
      (k : K) (v old : V) (m : Dict K V) → find k m ≡ some old → insert k v m ≡ (m, false)
  unfolding insert
  insert_old k v old m h = rw h

  pub find-erase :
      (k j : K) (m : Dict K V) → find j (erase k m) ≡ (if e.beq k j then none else find j m)
  unfolding find erase
  find-erase k j [] = elim (Bool-cases (e.beq k j)) [ inl h ↦ rw h | inr h ↦ rw h ]
  find-erase k j ((i, w) ∷ m) =
      ground (arith, e.beq_iff k j, e.beq_iff i k, e.beq_iff i j, find-erase k j m)
