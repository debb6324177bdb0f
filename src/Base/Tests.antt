-- ===== src/Base/Tests.antt =====
-- Boolean tests on the native numbers, the conditional, and faulting steps in a `do` block.
use Prim.Native.Nat.{ℕ, ◌≤◌, ◌<◌, compare, Ordering}
use mathlib.Core.Path.{◌≡◌, refl}
use mathlib.Core.Logic.{◌↔◌, ◌⊎◌, inl, inr}
use mathlib.Core.Bool.{Bool, true, false}
use mathlib.Core.Option.{Option, none, some}
use native.Mathlib.Omega.{arith}

abbrev pub ltb : ℕ → ℕ → Bool
ltb a b = elim (compare a b) [ Ordering.lt ↦ true | _ ↦ false ]

abbrev pub leb : ℕ → ℕ → Bool
leb a b = elim (compare a b) [ Ordering.gt ↦ false | _ ↦ true ]

infix 50 ◌==◌
abbrev pub ◌==◌ : ℕ → ℕ → Bool
a == b = elim (compare a b) [ Ordering.eq ↦ true | _ ↦ false ]

infix 1 if◌then◌else◌
abbrev pub if◌then◌else◌ {ℓ} : {A : Type ℓ} → Bool → A → A → A
if true then x else y = x
if false then x else y = y

pub le→leb : (a b : ℕ) → a ≤ b → leb a b ≡ true
le→leb a b h = ground arith

pub lt→leb-false : (a b : ℕ) → b < a → leb a b ≡ false
lt→leb-false a b h = ground arith

pub ==_iff : (a b : ℕ) → ((a == b) ≡ true) ↔ (a ≡ b)
==_iff a b = ground arith

pub Bool-cases : (b : Bool) → (b ≡ true) ⊎ (b ≡ false)
Bool-cases true = inl refl
Bool-cases false = inr refl

pub Option-cases {ℓ} : {A : Type ℓ} (o : Option A) → (o ≡ none) ⊎ ((a : A) × (o ≡ some a))
Option-cases none = inl refl
Option-cases (some a) = inr (a, refl)

-- `none` is undefined behaviour of the source, such as a store past the end of an array.
infixl 5 ◌>>=◌
abbrev pub ◌>>=◌ {ℓ κ} : {A : Type ℓ} {B : Type κ} → Option A → (A → Option B) → Option B
none >>= f = none
some a >>= f = f a

pub >>=-eq-some {ℓ κ} :
    {A : Type ℓ} {B : Type κ} (m : Option A) (f : A → Option B) {b : B}
    → (m >>= f) ≡ some b
    → (a : A) × (m ≡ some a) × (f a ≡ some b)
>>=-eq-some none f h = cc
>>=-eq-some (some a) f h = (a, refl, h)

pub le→ltb-false : (a b : ℕ) → b ≤ a → ltb a b ≡ false
le→ltb-false a b h = ground arith

pub lt→ltb : (a b : ℕ) → a < b → ltb a b ≡ true
lt→ltb a b h = ground arith

pub pos→==-false : (a : ℕ) → 0 < a → (a == 0) ≡ false
pos→==-false a h = ground arith

module _ {A : Type 0} where
  -- A result, if there is one, has the property.
  abbrev pub Holds : Option A → (A → Type 0) → Type 0
  Holds none P = Unit
  Holds (some a) P = P a

module _ {A : Type 0} where
  pub Holds-bind :
      {B : Type 0} (o : Option B) (f : B → Option A) (P : A → Type 0)
      → ((b : B) → o ≡ some b → Holds (f b) P)
      → Holds (o >>= f) P
  Holds-bind none f P h = tt
  Holds-bind (some b) f P h = h b refl

  pub Holds-if :
      (b : Bool) (x y : Option A) (P : A → Type 0)
      → (b ≡ true → Holds x P)
      → (b ≡ false → Holds y P)
      → Holds (if b then x else y) P
  Holds-if true x y P h k = h refl
  Holds-if false x y P h k = k refl

  pub Holds-then :
      {B : Type 0} (o : Option B) (f : B → Option A) (Q : B → Type 0) (P : A → Type 0)
      → Holds o Q
      → ((b : B) → Q b → Holds (f b) P)
      → Holds (o >>= f) P
  Holds-then none f Q P h k = tt
  Holds-then (some b) f Q P h k = k b h

module _ {A : Type 0} where
  pub Holds-weaken :
      (o : Option A) (Q P : A → Type 0) → Holds o Q → ((a : A) → Q a → P a) → Holds o P
  Holds-weaken none Q P h k = tt
  Holds-weaken (some a) Q P h k = k a h
