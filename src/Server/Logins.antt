-- ===== src/Server/Logins.antt =====
-- What a task does to `users_` and to the ids of the sessions.
use fighting_card.Base.{
  ℕ, ◌≡◌, refl, ap, inl, inr, Bool, true, false, ◌||◌, Option, none, some, arith, if◌then◌else◌,
  Bool-cases, Option-cases,
}
use mathlib.Core.Path.{fun_ext}
use fighting_card.Base.Text.{Text, text_eq}
use fighting_card.Base.Dict.{insert, find-insert_new, find-erase, text_Eq}
use fighting_card.Server.{
  User, Logic, find_user, add_user, del_user, add_session, del_session, normal, LoginReq,
  login_logined, login_success, login, login_normal, accept, closed, adds, closes, logs_in, step,
}
use fighting_card.Server.Online.{renamed}

abbrev pub uid_of : Logic → ℕ → Text
uid_of s p = (s.sessions p).user_id

abbrev pub is_some {ℓ} : {A : Type ℓ} → Option A → Bool
is_some none = false
is_some (some a) = true

abbrev pub is_user : Text → Logic → Bool
is_user t s = is_some (find_user t s)

pub is_user-free : (t : Text) (s : Logic) → is_user t s ≡ false → find_user t s ≡ none
is_user-free t s h = elim (Option-cases (find_user t s)) [
  | inl free ↦ free
  | inr (user, e) ↦ ground arith
]

pub uid_of-added : (s : Logic) (p : ℕ) → uid_of (step s (adds p)) ≡ uid_of s
unfolding step add_session
uid_of-added s p = fun_ext λ q. ground arith

module _ (s : Logic) (p : ℕ) (req : LoginReq) (e : req.type ≡ normal) where
  login-normal : login p req s ≡ login_normal p req.uid s (find_user req.uid s)
  unfolding login
  login-normal = rw (e, login)

  -- A name that is in use is refused, with no change.
  pub login_refused :
      (user : User) → find_user req.uid s ≡ some user → login p req s ≡ (s, login_logined)
  login_refused user h = rw (login-normal, h) (unfold login_normal in refl)

  module _ (h : find_user req.uid s ≡ none) where
    added_user : Logic
    added_user = record s { users = (insert req.uid (record { uid = req.uid }) s.users).0 }

    add_user_new : add_user (record { uid = req.uid }) s ≡ (added_user, true)
    unfolding add_user added_user
    add_user_new = rw h

    login_new : login p req s ≡ accept p req.uid added_user
    login_new = rw (login-normal, h) (unfold login_normal in rw add_user_new)

    step_new : step s (logs_in p req) ≡ (accept p req.uid added_user).0
    unfolding step
    step_new = ap (λ r. r.0) login_new

    pub login-success : (login p req s).1 ≡ login_success
    unfolding accept
    login-success = ap (λ r. r.1) login_new

    pub uid_of-accepted : uid_of (step s (logs_in p req)) ≡ renamed (uid_of s) p req.uid
    unfolding accept added_user
    uid_of-accepted = rw step_new (fun_ext λ q. ground arith)

    pub authed-accepted : ((step s (logs_in p req)).sessions p).authed ≡ true
    unfolding accept
    authed-accepted = rw step_new (ground arith)

    pub is_user-accepted :
        (t : Text) → is_user t (step s (logs_in p req)) ≡ (text_eq req.uid t || is_user t s)
    unfolding accept added_user find_user
    is_user-accepted t =
        rw (step_new, find-insert_new req.uid t (record { uid = req.uid }) s.users h)
          (elim (Bool-cases (text_eq req.uid t)) [ inl new ↦ rw new | inr other ↦ rw other ])

pub is_user-closed :
    (s : Logic) (p : ℕ) (t : Text)
    → is_user t (step s (closes p)) ≡ (if text_eq (uid_of s p) t then false else is_user t s)
unfolding step closed del_session del_user find_user
is_user-closed s p t =
    rw (find-erase (uid_of s p) t s.users)
      (elim (Bool-cases (text_eq (uid_of s p) t)) [ inl own ↦ rw own | inr other ↦ rw other ])

pub uid_of-closed : (s : Logic) (p : ℕ) → uid_of (step s (closes p)) ≡ uid_of s
unfolding step closed del_session del_user
uid_of-closed s p = refl

pub is_user-added : (s : Logic) (p : ℕ) (t : Text) → is_user t (step s (adds p)) ≡ is_user t s
unfolding step add_session find_user
is_user-added s p t = refl

pub step_refused :
    (s : Logic) (p : ℕ) (req : LoginReq) (user : User)
    → req.type ≡ normal
    → find_user req.uid s ≡ some user
    → step s (logs_in p req) ≡ s
unfolding step
step_refused s p req user e h = ap (λ r. r.0) (login_refused s p req e user h)
