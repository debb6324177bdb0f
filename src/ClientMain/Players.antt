-- ===== src/ClientMain/Players.antt =====
-- The users of one client at a server that nobody has logged in to.
use fighting_card.Base.{
  ℕ, zero, suc, ◌+◌, ◌-◌, ◌^◌, ◌≡◌, ◌≤◌, ◌<◌, ◌∙◌, refl, ap, inl, inr, Bool, true, false, some,
  List, [], ◌∷◌, arith, Bool-cases, replicate,
}
use fighting_card.Base.Text.{Text, text_eq, text_eq_iff}
use fighting_card.Base.Int.{place, at_place, to_string, to_string-injective}
use fighting_card.Config.{UsersInfo}
use fighting_card.IoServicePool.{Pool}
use fighting_card.Server.{Logic, LoginReq, LoginRes, login_success, normal, login, logs_in, step}
use fighting_card.Server.Logins.{is_user, is_user-free, is_user-accepted, login-success}
use fighting_card.ClientMain.{Started, Loop, ends, run_loop}
use fighting_card.ClientMain.Range.{users_from}
use fighting_card.ClientMain.Ends.{count, loop_start, after_turns, run_loop-ends}

-- What `User::Init` sends.
abbrev pub request_of : Text → LoginReq
request_of uid = record { type = normal; uid = uid; token = [] }

-- The requests of users one after the other, on the sessions from `p` on: the answers.
abbrev pub log_in_all : ℕ → List Started → Logic → List LoginRes
log_in_all p [] s = []
log_in_all p (u ∷ users) s =
    let req = request_of u.user.uid in
    (login p req s).1 ∷ log_in_all (suc p) users (step s (logs_in p req))

abbrev name_at : ℕ → Text
name_at k = to_string (at_place k)

other_name : (k j : ℕ) → k < j → j < 2 ^ 32 → text_eq (name_at k) (name_at j) ≡ false
other_name k j less fits = elim (Bool-cases (text_eq (name_at k) (name_at j))) [
  | inr other ↦ other
  | inl e ↦
      let same : at_place k ≡ at_place j =
        to_string-injective (at_place k) (at_place j) (omega arith) (omega arith)
          ((text_eq_iff (name_at k) (name_at j)).0 e) in
      absurd (omega (arith, ap place same, less, fits))
]

module _ (info : UsersInfo) (size : ℕ) where
  all_accepted :
      (n k taken p : ℕ) (s : Logic)
      → k + n ≤ 2 ^ 32
      → ((j : ℕ) → k ≤ j → j < 2 ^ 32 → is_user (name_at j) s ≡ false)
      → log_in_all p (users_from info size k taken n) s ≡ replicate n login_success
  all_accepted zero k taken p s fits free = refl
  all_accepted (suc n) k taken p s fits free =
      let unused = is_user-free (name_at k) s (free k (omega arith) (omega (arith, fits))) in
      rw (login-success s p req refl unused) (
        ap (◌∷◌ login_success) (
          all_accepted n (suc k) (suc (suc taken)) (suc p) (step s (logs_in p req))
            (omega (arith, fits))
            (λ j low high.
              is_user-accepted s p req refl unused (name_at j)
              ∙ rw (other_name k j low high) (free j (omega (arith, low)) high))))
    where
      req : LoginReq
      req = request_of (name_at k)

-- The users that the client's loop starts log in one after the other: if nobody is logged in and
-- the uids end before the greatest `int`, the server accepts them all.
pub players_accepted :
    (resolves : ℕ → Bool) (info : UsersInfo) (pool : Pool) (fuel p : ℕ) (s : Logic)
    → 0 < pool.io_services
    → info.uid_from < 2 ^ 32
    → place info.uid_to < 2 ^ 32 - 1
    → ((uid : ℕ) → resolves uid ≡ true)
    → count info < fuel
    → ((t : Text) → is_user t s ≡ false)
    → (l : Loop) × (run_loop resolves info fuel (loop_start resolves info pool) ≡ some (ends l))
      × (log_in_all p l.users s ≡ replicate (count info) login_success)
players_accepted resolves info pool fuel p s some_service from_fits not_max resolved enough nobody =
    (
      after_turns resolves info pool (count info),
      run_loop-ends resolves info pool fuel some_service from_fits not_max resolved enough,
      all_accepted info pool.io_services (count info) (place info.uid_from) 0 p s
          (omega (arith, not_max)) (λ j low high. nobody (name_at j)),
    )
