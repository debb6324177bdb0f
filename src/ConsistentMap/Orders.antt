-- ===== src/ConsistentMap/Orders.antt =====
-- The order in which nodes join makes no difference.
use fighting_card.Base.{ℕ, ◌≡◌, ◌≢◌, ◌∙◌, refl, sym, ap, List, [], ◌∷◌, arith, All}
use mathlib.Core.List.{Perm, Permᴰ}
use mathlib.Core.Path.{subst}
use mathlib.Core.Logic.{∥∥₁_elim}
use fighting_card.ConsistentMap.{insert}

module _ {V : Type 0} where
  insert_comm :
      (k j : ℕ) (v w : V) (entries : List (ℕ × V))
      → k ≢ j
      → (insert k v (insert j w entries).0).0 ≡ (insert j w (insert k v entries).0).0
  unfolding insert
  insert_comm k j v w [] ne = ground arith
  insert_comm k j v w ((i, u) ∷ entries) ne = ground (arith, insert_comm k j v w entries ne)

  -- No key occurs twice.
  abbrev pub IsKeyed : List (ℕ × V) → Type 0
  IsKeyed [] = Unit
  IsKeyed (e ∷ es) = All (λ f. e.0 ≢ f.0) es × IsKeyed es

  abbrev pub insert_all : List (ℕ × V) → List (ℕ × V) → List (ℕ × V)
  insert_all [] entries = entries
  insert_all (e ∷ es) entries = insert_all es (insert e.0 e.1 entries).0

  ne-Permᴰ :
      (k : ℕ) {es fs : List (ℕ × V)} → Permᴰ es fs → All (λ f. k ≢ f.0) es → All (λ f. k ≢ f.0) fs
  ne-Permᴰ k Permᴰ.nil h = tt
  ne-Permᴰ k (Permᴰ.cons same d) h = (rw (← same) h.0, ne-Permᴰ k d h.1)
  ne-Permᴰ k (Permᴰ.swap same other) h = (rw (← other) h.1.0, (rw (← same) h.0, h.1.1))
  ne-Permᴰ k (Permᴰ.trans d e) h = ne-Permᴰ k e (ne-Permᴰ k d h)

  IsKeyed-Permᴰ : {es fs : List (ℕ × V)} → Permᴰ es fs → IsKeyed es → IsKeyed fs
  IsKeyed-Permᴰ Permᴰ.nil h = tt
  IsKeyed-Permᴰ (Permᴰ.cons {a = a} {b = b} {l₂ = l} same d) h =
      (rw (← same) (ne-Permᴰ a.0 d h.0), IsKeyed-Permᴰ d h.1)
  IsKeyed-Permᴰ (Permᴰ.swap {l = l} same other) h = (
    (rw (← same, ← other) (λ e. h.0.0 (sym e)), subst (λ c. All (λ f. c.0 ≢ f.0) l) other h.1.0),
    (subst (λ c. All (λ f. c.0 ≢ f.0) l) same h.0.1, h.1.1),
  )
  IsKeyed-Permᴰ (Permᴰ.trans d e) h = IsKeyed-Permᴰ e (IsKeyed-Permᴰ d h)

  insert_all-Permᴰ :
      {es fs : List (ℕ × V)} (entries : List (ℕ × V))
      → Permᴰ es fs
      → IsKeyed es
      → insert_all es entries ≡ insert_all fs entries
  insert_all-Permᴰ entries Permᴰ.nil h = refl
  insert_all-Permᴰ entries (Permᴰ.cons {a = a} same d) h =
      rw (← same) (insert_all-Permᴰ (insert a.0 a.1 entries).0 d h.1)
  insert_all-Permᴰ entries (Permᴰ.swap {a = a} {b = b} {l = l} same other) h =
      rw (← same, ← other)
        (ap (insert_all l) (insert_comm b.0 a.0 b.1 a.1 entries (λ e. h.0.0 (sym e))))
  insert_all-Permᴰ entries (Permᴰ.trans d e) h =
      insert_all-Permᴰ entries d h ∙ insert_all-Permᴰ entries e (IsKeyed-Permᴰ d h)

  set_of_maps : IsSet V → IsSet (List (ℕ × V))
  set_of_maps s = hlevel

  -- Nodes with different keys can join in any order: the map is the same.
  pub insert_all-Perm :
      {es fs : List (ℕ × V)} (entries : List (ℕ × V))
      → IsSet V
      → Perm es fs
      → IsKeyed es
      → insert_all es entries ≡ insert_all fs entries
  insert_all-Perm {es} {fs} entries s p h =
      ∥∥₁_elim p (set_of_maps s (insert_all es entries) (insert_all fs entries))
        (λ d. insert_all-Permᴰ entries d h)
