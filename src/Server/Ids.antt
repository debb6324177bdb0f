-- ===== src/Server/Ids.antt =====
-- The session ids that `AddSession` gives, and what `GetSession` finds under them.
use fighting_card.Base.{
  ℕ, zero, suc, ◌+◌, ◌%◌, ◌≡◌, ◌≤◌, ◌<◌, ◌∙◌, refl, ap, inl, inr, Bool, true, false, none, some,
  List, [], ◌∷◌, ◌⊎◌, arith, ◌==◌, Option-cases,
}
use fighting_card.Base.Dict.{Dict, find, insert, erase, find-insert_new, find-erase, nat_Eq}
use fighting_card.Server.{
  UserSession, Logic, LoginType, find_user, add_user, del_user, next_session_id, add_session,
  del_session, lock, get_session, LoginReq, login, login_normal, accept, closed, Task, adds, closes,
  logs_in, pings, step, run, init, normal, queued,
}

-- The ids that a `uint32_t` has without 0.
abbrev pub id_count : ℕ
id_count = 4294967295

-- The id of the `k`-th session that is added, and 0 before the first.
abbrev pub nth_id : ℕ → ℕ
nth_id zero = 0
nth_id (suc k) = k % id_count + 1

-- The number of sessions that have been added, when `n` had been before.
abbrev pub adds_after : ℕ → List Task → ℕ
adds_after n [] = n
adds_after n (adds p ∷ ts) = adds_after (suc n) ts
adds_after n (closes p ∷ ts) = adds_after n ts
adds_after n (logs_in p req ∷ ts) = adds_after n ts
adds_after n (pings p ∷ ts) = adds_after n ts

abbrev pub adds_count : List Task → ℕ
adds_count ts = adds_after 0 ts

next-nth : (k : ℕ) → next_session_id (nth_id k) ≡ nth_id (suc k)
unfolding next_session_id
next-nth zero = refl
next-nth (suc k) = ground arith

pub LoginType-cases : (type : LoginType) → (type ≡ normal) ⊎ (type ≡ queued)
LoginType-cases normal = inl refl
LoginType-cases queued = inr refl

-- What a login leaves as it is.
abbrev pub table : Logic → ℕ × Dict ℕ ℕ × (ℕ → Bool)
table s = (s.last_session_id, s.user_sessions, s.exists)

login-table : (p : ℕ) (req : LoginReq) (s : Logic) → table (login p req s).0 ≡ table s
unfolding login accept
login-table p req s = elim (LoginType-cases req.type) [
  | inl e ↦ rw e (elim (Option-cases (find_user req.uid s)) [
    | inl free ↦ rw free (unfold login_normal in unfold add_user in rw free)
    | inr (user, old) ↦ rw old (unfold login_normal in refl)
  ])
  | inr e ↦ rw e
]

-- The keys of the table are ids that were given.
abbrev pub AreGiven : ℕ → Dict ℕ ℕ → Type 0
AreGiven n d = (k : ℕ) → k ≡ 0 ⊎ n < k → find k d ≡ none

-- The counter and the table after `n` additions, up to the first that gives an id again.
abbrev pub IsCounted : ℕ → Logic → Type 0
IsCounted n s = (s.last_session_id ≡ nth_id n) × (n ≤ id_count → AreGiven n s.user_sessions)

AreGiven-erase : (n i : ℕ) (d : Dict ℕ ℕ) → AreGiven n d → AreGiven n (erase i d)
AreGiven-erase n i d v k out = ground (arith, find-erase i k d, v k out)

AreGiven-insert :
    (n p : ℕ) (d : Dict ℕ ℕ)
    → n < id_count
    → AreGiven n d
    → AreGiven (suc n) (insert (nth_id (suc n)) p d).0
AreGiven-insert n p d small v k out =
    find-insert_new (nth_id (suc n)) k p d (v (nth_id (suc n)) (inr (omega arith)))
    ∙ rw other (v k (omega (arith, out)))
  where
    other : (nth_id (suc n) == k) ≡ false
    other = ground (arith, out)

step-IsCounted :
    (n : ℕ) (s : Logic) (t : Task) → IsCounted n s → IsCounted (adds_after n (t ∷ [])) (step s t)
unfolding step add_session closed del_user del_session
step-IsCounted n s (adds p) v = (
  ap next_session_id v.0 ∙ next-nth n,
  λ small.
      rw (v.0, next-nth n)
        (AreGiven-insert n p s.user_sessions (omega (arith, small)) (v.1 (omega (arith, small)))),
)
step-IsCounted n s (closes p) v =
    (v.0, λ small. AreGiven-erase n (s.sessions p).session_id s.user_sessions (v.1 small))
step-IsCounted n s (logs_in p req) v = (
  ap (λ r. r.0) (login-table p req s) ∙ v.0,
  λ small. rw (ap (λ r. r.1) (login-table p req s)) (v.1 small),
)
step-IsCounted n s (pings p) v = v

run-IsCounted :
    (n : ℕ) (s : Logic) (ts : List Task) → IsCounted n s → IsCounted (adds_after n ts) (run s ts)
unfolding run step
run-IsCounted n s [] v = v
run-IsCounted n s (adds p ∷ ts) v =
    run-IsCounted (suc n) (step s (adds p)) ts (step-IsCounted n s (adds p) v)
run-IsCounted n s (closes p ∷ ts) v =
    run-IsCounted n (step s (closes p)) ts (step-IsCounted n s (closes p) v)
run-IsCounted n s (pings p ∷ ts) v = run-IsCounted n s ts v
run-IsCounted n s (logs_in p req ∷ ts) v =
    run-IsCounted n (step s (logs_in p req)) ts (step-IsCounted n s (logs_in p req) v)

self : (p : ℕ) → (p == p) ≡ true
self p = ground arith

module _ (sessions : ℕ → UserSession) (exists : ℕ → Bool) (ts : List Task) (p : ℕ) where
  abbrev pub before : Logic
  before = run (init sessions exists) ts

  before-IsCounted : IsCounted (adds_count ts) before
  before-IsCounted =
      run-IsCounted 0 (init sessions exists) ts
        (unfold init in (refl, λ small k out. unfold find in refl))

  -- After `k` additions the next session gets the id `k % 4294967295 + 1`: never 0, below 2 ^ 32,
  -- and the same as an earlier id only 4294967295 additions later.
  pub session_id-added :
      ((step before (adds p)).sessions p).session_id ≡ adds_count ts % id_count + 1
  unfolding step add_session
  session_id-added = ground (arith, before-IsCounted.0, next-nth (adds_count ts))

  -- While fewer than 4294967295 sessions have been added, the session that is added is found
  -- under its id as long as it exists.
  pub get_session-added :
      adds_count ts < id_count
      → (run (init sessions exists) ts).exists p ≡ true
      → let after = step before (adds p) in get_session (after.sessions p).session_id after ≡ some p
  unfolding step add_session get_session
  get_session-added small alive = rw (self p, before-IsCounted.0, next-nth (adds_count ts)) found
    where
      id : ℕ
      id = adds_count ts % id_count + 1

      fresh : find id before.user_sessions ≡ none
      fresh = before-IsCounted.1 (omega (arith, small)) id (inr (omega (arith, small)))

      found : lock before.exists (find id (insert id p before.user_sessions).0) ≡ some p
      found = rw (find-insert_new id id p before.user_sessions fresh, self id) (rw alive)
