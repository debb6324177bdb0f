-- ===== src/Server/Races.antt =====
-- Histories that are not orderly, and what `users_` has after them.
use fighting_card.Base.{
  ℕ, ◌≡◌, ◌≢◌, ◌∙◌, refl, sym, inl, inr, true, false, ◌||◌, [], ◌∷◌, arith, if◌then◌else◌,
  Bool-cases,
}
use fighting_card.Base.Text.{Text, text_eq, text_eq_iff, text_eq_refl}
use fighting_card.Server.{
  Logic, LoginType, normal, queued, LoginReq, login, accept, closed, del_session, del_user, closes,
  logs_in, step, run,
}
use fighting_card.Server.Online.{renamed}
use fighting_card.Server.Logins.{
  uid_of-closed, uid_of, is_user, is_user-accepted, is_user-free, uid_of-accepted, is_user-closed,
}

abbrev pub request : LoginType → Text → LoginReq
request type uid = record { type = type; uid = uid; token = [] }

text_ne : (a b : Text) → a ≢ b → text_eq a b ≡ false
text_ne a b h = elim (Bool-cases (text_eq a b)) [
  | inl e ↦ absurd (h ((text_eq_iff a b).0 e))
  | inr e ↦ e
]

module _ (s : Logic) (p q : ℕ) (uid : Text) where
  queued_takes : uid_of (step s (logs_in q (request queued uid))) q ≡ uid
  unfolding step login accept
  queued_takes = ground arith

  queued_others : p ≢ q → (step s (logs_in q (request queued uid))).sessions p ≡ s.sessions p
  unfolding step login accept
  queued_others ne = ground arith

  closed_others : (t : Logic) → (step t (closes q)).sessions p ≡ t.sessions p
  unfolding step closed del_session del_user
  closed_others t = refl

  -- A session that logs in with `kLoginTypeQueued` takes a name that another session holds, and
  -- when it closes the name is freed: the other session is as before, and its name may be taken
  -- by a third.
  pub queued_close_frees :
      p ≢ q
      → let after = run s (logs_in q (request queued uid) ∷ closes q ∷ []) in
        (is_user uid after ≡ false) × (after.sessions p ≡ s.sessions p)
  unfolding run
  queued_close_frees ne = (
    is_user-closed (step s (logs_in q (request queued uid))) q uid
        ∙ rw (queued_takes, text_eq_refl uid),
    closed_others (step s (logs_in q (request queued uid))) ∙ queued_others ne,
  )

module _ (s : Logic) (p : ℕ) (x y : Text) (ne : x ≢ y) (x_free : is_user x s ≡ false)
    (y_free : is_user y s ≡ false) where
  once : Logic
  once = step s (logs_in p (request normal x))

  twice : Logic
  twice = step once (logs_in p (request normal y))

  once_users : (t : Text) → is_user t once ≡ (text_eq x t || is_user t s)
  unfolding once
  once_users = is_user-accepted s p (request normal x) refl (is_user-free x s x_free)

  y_still_free : is_user y once ≡ false
  y_still_free = rw (once_users y, text_ne x y ne) y_free

  twice_users : (t : Text) → is_user t twice ≡ (text_eq y t || is_user t once)
  unfolding twice
  twice_users = is_user-accepted once p (request normal y) refl (is_user-free y once y_still_free)

  twice_name : uid_of twice p ≡ y
  unfolding twice
  twice_name =
      rw (uid_of-accepted once p (request normal y) refl (is_user-free y once y_still_free))
        (ground arith)

  closed_users :
      (t : Text)
      → is_user t (step twice (closes p)) ≡ (if text_eq y t then false else is_user t twice)
  closed_users t = rw (is_user-closed twice p t, twice_name)

  -- A session that logs in twice, under two free names, and closes leaves the first name in
  -- `users_`, while the second is free again.
  pub relogin_leaks :
      let after =
        run s (logs_in p (request normal x) ∷ logs_in p (request normal y) ∷ closes p ∷ []) in
      (is_user x after ≡ true) × (is_user y after ≡ false)
  unfolding run twice once
  relogin_leaks = (
    closed_users x ∙ rw (other, twice_users x, once_users x, other, text_eq_refl x),
    closed_users y ∙ rw (text_eq_refl y),
  )
    where
      other : text_eq y x ≡ false
      other = text_ne y x (λ e. ne (sym e))

module _ (s : Logic) (p q : ℕ) (x : Text) (ne : p ≢ q) (x_free : is_user x s ≡ false) where
  first : Logic
  first = step s (logs_in p (request normal x))

  gone : Logic
  gone = step first (closes p)

  second : Logic
  second = step gone (logs_in q (request normal x))

  first_name : uid_of first p ≡ x
  unfolding first
  first_name =
      rw (uid_of-accepted s p (request normal x) refl (is_user-free x s x_free)) (ground arith)

  gone_name : uid_of gone p ≡ x
  unfolding gone
  gone_name = rw (uid_of-closed first p) first_name

  gone_free : is_user x gone ≡ false
  unfolding gone
  gone_free = rw (is_user-closed first p x, first_name, text_eq_refl x)

  second_names : uid_of second ≡ renamed (uid_of gone) q x
  unfolding second
  second_names = uid_of-accepted gone q (request normal x) refl (is_user-free x gone gone_free)

  second_first_name : uid_of second p ≡ x
  second_first_name = rw second_names (ground (arith, gone_name, ne))

  -- `Close` may be called twice, for an error of the read and one of the write. If another session
  -- takes the name of a session that has closed, and the first closes once more, the name is
  -- freed, although the other still has it.
  pub second_close_frees :
      let after =
        run s (
          logs_in p (request normal x) ∷ closes p ∷ logs_in q (request normal x) ∷ closes p ∷ []) in
      (is_user x after ≡ false) × (uid_of after q ≡ x)
  unfolding run second gone first
  second_close_frees = (
    is_user-closed second p x ∙ rw (second_first_name, text_eq_refl x),
    rw (uid_of-closed second p, second_names) (ground arith),
  )
