-- ===== src/Server/Registry.antt =====
-- What the server's tables are for, without the lists that they are kept in: which names are in
-- use, which session an id stands for, and the sessions.
use fighting_card.Base.{
  ℕ, ◌≡◌, ◌∙◌, refl, ap, inl, inr, Bool, true, false, ◌||◌, Option, none, some, List, [], ◌∷◌, ◌==◌,
  ==_iff, if◌then◌else◌, Bool-cases, Option-cases,
}
use mathlib.Core.Path.{fun_ext}
use fighting_card.Base.Text.{Text, text_eq}
use fighting_card.Base.Dict.{
  Dict, nat_Eq, beq_self, text_Eq, find, insert, find-insert_new, insert_old, find-erase,
}
use fighting_card.Server.{
  UserSession, Logic, find_user, add_user, del_user, next_session_id, add_session, del_session,
  LoginType, normal, queued, LoginReq, LoginRes, login_success, login_logined, login, login_normal,
  accept, closed, Task, adds, closes, pings, logs_in, step, run,
}
use fighting_card.Server.Ids.{LoginType-cases}
use fighting_card.Server.Logins.{is_some, is_user, is_user-closed}

pub record Registry : Type 0 where
  pub in_use : Text → Bool
  pub session_of : ℕ → Option ℕ
  pub last_id : ℕ
  pub sessions : ℕ → UserSession

-- The registry that the tables stand for.
abbrev pub view : Logic → Registry
view s = record {
  in_use = λ t. is_user t s;
  session_of = λ id. find id s.user_sessions;
  last_id = s.last_session_id;
  sessions = s.sessions;
}

-- `lookup` with `p` for the key `k`, unless that has a value.
abbrev pub or_else : Option ℕ → Option ℕ → Option ℕ
or_else none o = o
or_else (some q) o = some q

abbrev pub put_session : ℕ → UserSession → Registry → Registry
put_session p u r = record r { sessions = λ q. if p == q then u else r.sessions q }

abbrev pub register : ℕ → Registry → Registry
register p r =
    let id = next_session_id r.last_id in
    put_session p (record (r.sessions p) { session_id = id })
      (record r {
        last_id = id;
        session_of = λ i. or_else (r.session_of i) (if id == i then some p else none);
      })

abbrev pub admit : ℕ → Text → Registry → Registry
admit p uid r = put_session p (record (r.sessions p) { user_id = uid; authed = true }) r

abbrev pub take_name : Text → Registry → Registry
take_name uid r = record r { in_use = λ t. text_eq uid t || r.in_use t }

-- A normal login needs a name that is not in use; a queued one takes no name.
abbrev pub admitted : ℕ → LoginReq → Registry → LoginType → Registry × LoginRes
admitted p req r queued = (admit p req.uid r, login_success)
admitted p req r normal =
    if r.in_use req.uid
    then (r, login_logined)
    else (admit p req.uid (take_name req.uid r), login_success)

abbrev pub leave : ℕ → Registry → Registry
leave p r = record r {
  in_use = λ t. if text_eq (r.sessions p).user_id t then false else r.in_use t;
  session_of = λ i. if (r.sessions p).session_id == i then none else r.session_of i;
}

-- One task on a registry, with the answer to a login.
abbrev pub serve : Registry → Task → Registry × List LoginRes
serve r (adds p) = (register p r, [])
serve r (closes p) = (leave p r, [])
serve r (pings p) = (r, [])
serve r (logs_in p req) = let done = admitted p req r req.type in (done.0, done.1 ∷ [])

abbrev pub serve_all : Registry → List Task → Registry × List (List LoginRes)
serve_all r [] = (r, [])
serve_all r (t ∷ ts) =
    let done = serve r t in let rest = serve_all done.0 ts in (rest.0, done.1 ∷ rest.1)

-- The answers of the server.
abbrev pub answer : Logic → Task → List LoginRes
answer s (adds p) = []
answer s (closes p) = []
answer s (pings p) = []
answer s (logs_in p req) = (login p req s).1 ∷ []

abbrev pub answers : Logic → List Task → List (List LoginRes)
answers s [] = []
answers s (t ∷ ts) = answer s t ∷ answers (step s t) ts

or_else-none : (o : Option ℕ) → or_else o none ≡ o
or_else-none none = refl
or_else-none (some q) = refl

find-insert :
    (j k v : ℕ) (m : Dict ℕ ℕ)
    → find j (insert k v m).0 ≡ or_else (find j m) (if k == j then some v else none)
find-insert j k v m = elim (Bool-cases (k == j)) [
  | inr other ↦
      rw (other, or_else-none (find j m))
        (elim (Option-cases (find k m)) [
          | inl free ↦ find-insert_new k j v m free ∙ rw other refl
          | inr (old, taken) ↦ rw (insert_old k v old m taken) refl
        ])
  | inl same ↦
      rw (same, ← (==_iff k j).0 same)
        (elim (Option-cases (find k m)) [
          | inl free ↦ rw (find-insert_new k k v m free, beq_self k, free) refl
          | inr (old, taken) ↦ rw (insert_old k v old m taken, taken) refl
        ])
]

registry-eq :
    {a b : Text → Bool} {f g : ℕ → Option ℕ} (n : ℕ) (u : ℕ → UserSession)
    → a ≡ b
    → f ≡ g
    → Path Registry
        (record { in_use = a; session_of = f; last_id = n; sessions = u })
        (record { in_use = b; session_of = g; last_id = n; sessions = u })
registry-eq n u p q = rw (p, q) refl

adds-view : (s : Logic) (p : ℕ) → view (add_session p s) ≡ register p (view s)
unfolding add_session find_user
adds-view s p =
    rw (fun_ext λ i. find-insert i (next_session_id s.last_session_id) p s.user_sessions) refl

closes-view : (s : Logic) (p : ℕ) → view (closed p s) ≡ leave p (view s)
unfolding closed del_session del_user find_user
closes-view s p =
    registry-eq s.last_session_id s.sessions (fun_ext λ t. unfold step in is_user-closed s p t)
      (fun_ext λ i. find-erase (s.sessions p).session_id i s.user_sessions)

abbrev renamed_sessions : Logic → ℕ → Text → ℕ → UserSession
renamed_sessions s p uid q =
    if p == q then record (s.sessions p) { user_id = uid; authed = true } else s.sessions q

free-view :
    (s : Logic) (p : ℕ) (uid : Text)
    → find_user uid s ≡ none
    → view (accept p uid (add_user (record { uid = uid }) s).0).0
      ≡ admit p uid (take_name uid (view s))
unfolding accept add_user find_user
free-view s p uid free =
    rw free (registry-eq s.last_session_id (renamed_sessions s p uid) (fun_ext λ t. known t) refl)
  where
    known :
        (t : Text)
        → is_some (find t (insert uid (record { uid = uid }) s.users).0)
          ≡ (text_eq uid t || is_some (find t s.users))
    known t =
        rw (find-insert_new uid t (record { uid = uid }) s.users (unfold find_user in free))
          (elim (Bool-cases (text_eq uid t)) [
            | inl same ↦ rw same refl
            | inr other ↦ rw other refl
          ])

login-view :
    (s : Logic) (p : ℕ) (req : LoginReq)
    → (view (login p req s).0, (login p req s).1) ≡ admitted p req (view s) req.type
unfolding login accept
login-view s p req = elim (LoginType-cases req.type) [
  | inr queue ↦ rw queue (unfold accept find_user in refl)
  | inl e ↦ elim (Option-cases (find_user req.uid s)) [
    | inr (user, old) ↦ rw (e, old) (unfold login_normal in refl)
    | inl free ↦
        rw (e, free)
          (unfold login_normal in ap (λ r. (r, login_success)) (free-view s p req.uid free))
  ]
]

step-view : (s : Logic) (t : Task) → (view (step s t), answer s t) ≡ serve (view s) t
unfolding step
step-view s (adds p) = ap (λ r. (r, [])) (adds-view s p)
step-view s (closes p) = ap (λ r. (r, [])) (closes-view s p)
step-view s (pings p) = refl
step-view s (logs_in p req) = ap (λ r. (r.0, r.1 ∷ [])) (login-view s p req)

-- The tables of the server implement the registry: after any sequence of tasks they stand for the
-- registry that has served these tasks, and every login has got the registry's answer.
pub run-serve_all :
    (ts : List Task) (s : Logic) → (view (run s ts), answers s ts) ≡ serve_all (view s) ts
unfolding run
run-serve_all [] s = refl
run-serve_all (t ∷ ts) s =
    ap (λ r. (r.0, answer s t ∷ r.1)) (run-serve_all ts (step s t))
    ∙ ap (λ done. ((serve_all done.0 ts).0, done.1 ∷ (serve_all done.0 ts).1)) (step-view s t)
