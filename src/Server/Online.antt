-- ===== src/Server/Online.antt =====
-- The sessions that are logged in, by their addresses, and the user ids that they hold.
use fighting_card.Base.{
  ℕ, ◌≡◌, ◌≢◌, ◌∙◌, refl, sym, ap, inl, inr, Bool, false, ◌||◌, List, [], ◌∷◌, ◌++◌, arith, ◌==◌,
  ==_iff, if◌then◌else◌, Bool-cases, All,
}
use fighting_card.Base.Text.{Text, text_eq, text_eq_iff}

module _ (uid : ℕ → Text) where
  -- Whether a session of the list holds the id `t`.
  abbrev pub holds : Text → List ℕ → Bool
  holds t [] = false
  holds t (p ∷ on) = text_eq (uid p) t || holds t on

  -- No two sessions of the list hold the same id.
  abbrev pub Distinct : List ℕ → Type 0
  Distinct [] = Unit
  Distinct (p ∷ on) = (holds (uid p) on ≡ false) × Distinct on

  abbrev pub Named : List ℕ → Type 0
  Named = All (λ p. uid p ≢ [])

  pub holds-remove_ne :
      (t : Text) (before : List ℕ) (p : ℕ) (after : List ℕ)
      → text_eq (uid p) t ≡ false
      → holds t (before ++ p ∷ after) ≡ holds t (before ++ after)
  holds-remove_ne t [] p after h = rw h
  holds-remove_ne t (q ∷ before) p after h = rw (holds-remove_ne t before p after h)

  holds-append_middle :
      (t : Text) (before : List ℕ) (p : ℕ) (after : List ℕ)
      → holds t (before ++ p ∷ after) ≡ false
      → (holds t (before ++ after) ≡ false) × (text_eq (uid p) t ≡ false)
  holds-append_middle t [] p after h = ground arith
  holds-append_middle t (q ∷ before) p after h =
      ground (arith, holds-append_middle t before p after)

  pub Distinct-remove :
      (before : List ℕ) (p : ℕ) (after : List ℕ)
      → Distinct (before ++ p ∷ after)
      → Distinct (before ++ after) × (holds (uid p) (before ++ after) ≡ false)
  Distinct-remove [] p after d = (d.1, d.0)
  Distinct-remove (q ∷ before) p after d = ground (
    arith,
    holds-append_middle (uid q) before p after,
    Distinct-remove before p after d.1,
    text_eq_iff (uid q) (uid p),
    text_eq_iff (uid p) (uid q),
  )

  pub Named-remove :
      (before : List ℕ) (p : ℕ) (after : List ℕ)
      → Named (before ++ p ∷ after)
      → Named (before ++ after) × (uid p ≢ [])
  Named-remove [] p after h = (h.1, h.0)
  Named-remove (q ∷ before) p after h =
      let rest = Named-remove before p after h.1 in ((h.0, rest.0), rest.1)

  pub holds-empty : (on : List ℕ) → Named on → holds [] on ≡ false
  holds-empty [] h = refl
  holds-empty (p ∷ on) h = ground (arith, text_eq_iff (uid p) [], holds-empty on h.1)

module _ (uid : ℕ → Text) (p : ℕ) (u : Text) where
  -- The ids after `p` has taken `u`.
  abbrev pub renamed : ℕ → Text
  renamed q = if p == q then u else uid q

  pub holds-renamed :
      (t : Text) (on : List ℕ) → uid p ≡ [] → Named uid on → holds renamed t on ≡ holds uid t on
  holds-renamed t [] free h = refl
  holds-renamed t (q ∷ on) free h = elim (Bool-cases (p == q)) [
    | inl same ↦ absurd (h.0 (ap uid (sym ((==_iff p q).0 same)) ∙ free))
    | inr other ↦ rw (other, holds-renamed t on free h.1)
  ]

  pub Named-renamed : (on : List ℕ) → u ≢ [] → Named uid on → Named renamed on
  Named-renamed [] new h = tt
  Named-renamed (q ∷ on) new h = elim (Bool-cases (p == q)) [
    | inl same ↦ (rw same new, Named-renamed on new h.1)
    | inr other ↦ (rw other h.0, Named-renamed on new h.1)
  ]

  pub Distinct-renamed :
      (on : List ℕ) → uid p ≡ [] → Named uid on → Distinct uid on → Distinct renamed on
  Distinct-renamed [] free h d = tt
  Distinct-renamed (q ∷ on) free h d = elim (Bool-cases (p == q)) [
    | inl same ↦ absurd (h.0 (ap uid (sym ((==_iff p q).0 same)) ∙ free))
    | inr other ↦
        (rw (other, holds-renamed (uid q) on free h.1) d.0, Distinct-renamed on free h.1 d.1)
  ]
