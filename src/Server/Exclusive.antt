-- ===== src/Server/Exclusive.antt =====
-- `users_` against the sessions that are logged in, when clients log in with `kLoginTypeNormal`.
use fighting_card.Base.{
  ℕ, ◌≡◌, ◌≢◌, ◌∙◌, refl, sym, ap, inl, inr, Bool, true, false, none, some, List, [], ◌∷◌, ◌++◌,
  arith, ◌==◌, if◌then◌else◌, Bool-cases,
}
use mathlib.Core.Path.{subst}
use fighting_card.Base.Text.{Text, text_eq, text_eq_iff}
use fighting_card.Base.Dict.{find, text_Eq}
use fighting_card.Server.{
  User, UserSession, Logic, find_user, normal, LoginReq, adds, closes, logs_in, pings, step, init,
}
use fighting_card.Server.Online.{
  holds, Distinct, Named, holds-remove_ne, Distinct-remove, Named-remove, holds-empty,
  holds-renamed, Named-renamed, Distinct-renamed,
}
use fighting_card.Server.Logins.{
  uid_of, is_user, uid_of-added, uid_of-accepted, is_user-accepted, is_user-closed, uid_of-closed,
  is_user-added, step_refused,
}

-- Histories in which each session logs in at most once, with a normal login and a name, and
-- closes at most once after that. The list has the sessions that are logged in and not closed.
pub data Orderly : Logic → List ℕ → Type 0 where
  start :
      (sessions : ℕ → UserSession) (exists : ℕ → Bool)
      → ((p : ℕ) → (sessions p).user_id ≡ [])
      → Orderly (init sessions exists) []
  added : {s : Logic} {on : List ℕ} (p : ℕ) → Orderly s on → Orderly (step s (adds p)) on
  pinged : {s : Logic} {on : List ℕ} (p : ℕ) → Orderly s on → Orderly (step s (pings p)) on
  accepted :
      {s : Logic} {on : List ℕ} (p : ℕ) (req : LoginReq)
      → req.type ≡ normal
      → req.uid ≢ []
      → uid_of s p ≡ []
      → find_user req.uid s ≡ none
      → Orderly s on
      → Orderly (step s (logs_in p req)) (p ∷ on)
  refused :
      {s : Logic} {on : List ℕ} (p : ℕ) (req : LoginReq) (user : User)
      → req.type ≡ normal
      → find_user req.uid s ≡ some user
      → Orderly s on
      → Orderly (step s (logs_in p req)) on
  left :
      {s : Logic} (before : List ℕ) (p : ℕ) (after : List ℕ)
      → Orderly s (before ++ p ∷ after)
      → Orderly (step s (closes p)) (before ++ after)
  left_anonymous :
      {s : Logic} {on : List ℕ} (p : ℕ)
      → uid_of s p ≡ []
      → Orderly s on
      → Orderly (step s (closes p)) on

-- The ids that are known are exactly those of the sessions, each held by one session.
pub record AreExactly (known : Text → Bool) (uid : ℕ → Text) (on : List ℕ) : Type 0 where
  pub registered : (t : Text) → known t ≡ holds uid t on
  pub distinct : Distinct uid on
  pub named : Named uid on

abbrev pub IsExclusive : Logic → List ℕ → Type 0
IsExclusive s on = AreExactly (λ t. is_user t s) (uid_of s) on

module _ (s : Logic) (on : List ℕ) (v : IsExclusive s on) where
  accepted-IsExclusive :
      (p : ℕ) (req : LoginReq)
      → req.type ≡ normal
      → req.uid ≢ []
      → uid_of s p ≡ []
      → find_user req.uid s ≡ none
      → IsExclusive (step s (logs_in p req)) (p ∷ on)
  accepted-IsExclusive p req e new free h =
      subst (λ u. AreExactly (λ t. is_user t (step s (logs_in p req))) u (p ∷ on))
        (sym (uid_of-accepted s p req e h))
        (record {
          registered = λ t.
              is_user-accepted s p req e h t
              ∙ rw (self, holds-renamed (uid_of s) p req.uid t on free v.named, v.registered t)
                  refl;
          distinct = (
            rw self (
                holds-renamed (uid_of s) p req.uid req.uid on free v.named
                ∙ sym (v.registered req.uid)
                ∙ rw h),
            Distinct-renamed (uid_of s) p req.uid on free v.named v.distinct,
          );
          named = (rw self new, Named-renamed (uid_of s) p req.uid on new v.named);
        })
    where
      self : (p == p) ≡ true
      self = ground arith

  left-IsExclusive :
      (before : List ℕ) (p : ℕ) (after : List ℕ)
      → on ≡ before ++ p ∷ after
      → IsExclusive (step s (closes p)) (before ++ after)
  left-IsExclusive before p after e = record {
    registered = λ t. rw (is_user-closed s p t, uid_of-closed s p) (known t);
    distinct = rw (uid_of-closed s p) rest.0;
    named = rw (uid_of-closed s p) (Named-remove (uid_of s) before p after (rw e at v.named)).0;
  }
    where
      rest :
          Distinct (uid_of s) (before ++ after)
          × (holds (uid_of s) (uid_of s p) (before ++ after) ≡ false)
      rest = Distinct-remove (uid_of s) before p after (rw e at v.distinct)

      known :
          (t : Text)
          → (if text_eq (uid_of s p) t then false else is_user t s)
            ≡ holds (uid_of s) t (before ++ after)
      known t = elim (Bool-cases (text_eq (uid_of s p) t)) [
        | inl own ↦ rw own (sym (rw ((text_eq_iff (uid_of s p) t).0 own) at rest.1))
        | inr other ↦ rw other (
            v.registered t
            ∙ ap (holds (uid_of s) t) e
            ∙ holds-remove_ne (uid_of s) t before p after other)
      ]

  anonymous-IsExclusive : (p : ℕ) → uid_of s p ≡ [] → IsExclusive (step s (closes p)) on
  anonymous-IsExclusive p free = record {
    registered = λ t. rw (is_user-closed s p t, uid_of-closed s p, free) (known t);
    distinct = rw (uid_of-closed s p) v.distinct;
    named = rw (uid_of-closed s p) v.named;
  }
    where
      known : (t : Text) → (if text_eq [] t then false else is_user t s) ≡ holds (uid_of s) t on
      known t = elim (Bool-cases (text_eq [] t)) [
        | inl own ↦ rw (own, ← (text_eq_iff [] t).0 own, holds-empty (uid_of s) on v.named)
        | inr other ↦ rw other (v.registered t)
      ]

  added-IsExclusive : (p : ℕ) → IsExclusive (step s (adds p)) on
  added-IsExclusive p = record {
    registered = λ t. rw (is_user-added s p t, uid_of-added s p) (v.registered t);
    distinct = rw (uid_of-added s p) v.distinct;
    named = rw (uid_of-added s p) v.named;
  }

-- After any orderly history, in which each session is accepted at most once, with a normal login
-- and a name, and closes at most once after that, `users_` holds exactly the ids of the sessions
-- that are logged in and have not closed, no two of these sessions hold the same id, and none
-- holds the empty id.
pub Orderly-IsExclusive : {s : Logic} {on : List ℕ} → Orderly s on → IsExclusive s on
unfolding init find_user find step
Orderly-IsExclusive (start sessions exists free) = record {
  registered = λ t. refl;
  distinct = tt;
  named = tt;
}
Orderly-IsExclusive (added p o) = added-IsExclusive _ _ (Orderly-IsExclusive o) p
Orderly-IsExclusive (pinged p o) = Orderly-IsExclusive o
Orderly-IsExclusive (accepted p req e new free h o) =
    accepted-IsExclusive _ _ (Orderly-IsExclusive o) p req e new free h
Orderly-IsExclusive (refused {s = s} p req user e h o) =
    rw (step_refused s p req user e h) (Orderly-IsExclusive o)
Orderly-IsExclusive (left before p after o) =
    left-IsExclusive _ _ (Orderly-IsExclusive o) before p after refl
Orderly-IsExclusive (left_anonymous p free o) =
    anonymous-IsExclusive _ _ (Orderly-IsExclusive o) p free
