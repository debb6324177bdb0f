-- ===== src/Server/Tests.antt =====
-- Sessions 7 and 8 log in as "ann" and "bob"; the tables of the logic thread after them.
use fighting_card.Base.{ℕ, ◌+◌, ◌*◌, ◌<◌, ◌≤◌, ◌≡◌, refl, Bool, true, false, some, [], ◌∷◌, arith}
use fighting_card.Base.Text.{Text, text_eq_iff}
use fighting_card.Base.Dict.{find}
use fighting_card.Server.{
  check_alive, check_alive_time, UserSession, Logic, find_user, del_user, del_session, closed,
  get_session, add_session, normal, queued, adds, closes, logs_in, step, run, init,
}
use fighting_card.Server.Logins.{is_user, uid_of}
use fighting_card.Server.Exclusive.{
  Orderly, start, added, accepted, IsExclusive, Orderly-IsExclusive,
}
use fighting_card.Server.Alive.{silent_closed}
use fighting_card.Server.Races.{request, queued_close_frees, relogin_leaks, second_close_frees}
use fighting_card.Server.Ids.{session_id-added, get_session-added}
use fighting_card.Server.Ownership.{init_session, on_close, use_count, session_kept}
use fighting_card.Timer
use fighting_card.Timer.{ticks, handles, stops}
use fighting_card.Server.Registry.{view, answers, serve_all, run-serve_all}

abbrev ann : Text
ann = 97 ∷ 110 ∷ 110 ∷ []

abbrev bob : Text
bob = 98 ∷ 111 ∷ 98 ∷ []

abbrev all_exist : ℕ → Bool
all_exist p = true

abbrev fresh_sessions : ℕ → UserSession
fresh_sessions p = record { session_id = 0; authed = false; user_id = []; last_alive_time = 100 }

abbrev empty : Logic
empty = init fresh_sessions all_exist

abbrev with_ann : Logic
with_ann = step (step empty (adds 7)) (logs_in 7 (request normal ann))

ann_orderly : Orderly with_ann (7 ∷ [])
unfolding init step add_session find_user find
ann_orderly =
    accepted 7 (request normal ann) refl (cc) refl refl
      (added 7 (start fresh_sessions all_exist (λ p. refl)))

Orderly-IsExclusive_example : IsExclusive with_ann (7 ∷ [])
Orderly-IsExclusive_example = Orderly-IsExclusive ann_orderly

queued_close_frees_example :
    let after = run with_ann (logs_in 8 (request queued ann) ∷ closes 8 ∷ []) in
    (is_user ann after ≡ false) × (after.sessions 7 ≡ with_ann.sessions 7)
queued_close_frees_example = queued_close_frees with_ann 7 8 ann (ground arith)

relogin_leaks_example :
    let after =
      run empty (logs_in 7 (request normal ann) ∷ logs_in 7 (request normal bob) ∷ closes 7 ∷ []) in
    (is_user ann after ≡ true) × (is_user bob after ≡ false)
relogin_leaks_example =
    relogin_leaks empty 7 ann bob (ground (arith, text_eq_iff ann bob))
      (unfold init in unfold find_user in unfold find in refl)
      (unfold init in unfold find_user in unfold find in refl)

session_id-added_example :
    ((step (run empty (adds 7 ∷ closes 7 ∷ [])) (adds 8)).sessions 8).session_id ≡ 2
session_id-added_example = session_id-added fresh_sessions all_exist (adds 7 ∷ closes 7 ∷ []) 8

get_session-added_example :
    let after = step (run empty (adds 7 ∷ closes 7 ∷ [])) (adds 8) in
    get_session (after.sessions 8).session_id after ≡ some 8
get_session-added_example =
    get_session-added fresh_sessions all_exist (adds 7 ∷ closes 7 ∷ []) 8 (omega arith) (
      unfold init in
      unfold run in
      unfold step in
      unfold closed in unfold add_session in unfold del_user in unfold del_session in refl)

silent_closed_example :
    (k : ℕ) × (check_alive (100 + k * check_alive_time) (fresh_sessions 7) ≡ true)
    × (105 ≤ 100 + k * check_alive_time)
    × (100 + k * check_alive_time < 110)
    × ((j : ℕ) → j < k → check_alive (100 + j * check_alive_time) (fresh_sessions 7) ≡ false)
silent_closed_example = silent_closed 100 (fresh_sessions 7) (omega arith)

second_close_frees_example :
    let after = run empty (
      logs_in 7 (request normal ann) ∷ closes 7 ∷ logs_in 8 (request normal ann) ∷ closes 7 ∷ []) in
    (is_user ann after ≡ false) × (uid_of after 8 ≡ ann)
second_close_frees_example =
    second_close_frees empty 7 8 ann (ground arith)
      (unfold init in unfold find_user in unfold find in refl)

run-serve_all_example :
    let tasks = adds 8 ∷ logs_in 8 (request normal ann) ∷ closes 7 ∷ [] in
    (view (run with_ann tasks), answers with_ann tasks) ≡ serve_all (view with_ann) tasks
run-serve_all_example =
    run-serve_all (adds 8 ∷ logs_in 8 (request normal ann) ∷ closes 7 ∷ []) with_ann

-- The session 7 after its timers have run once and stopped.
session_kept_example :
    let c =
      Timer.history
        (record { now = 100; items = init_session 7 100 []; calls = [] })
        (ticks ∷ handles 0 ∷ stops ∷ []) in
    (1 ≤ use_count 7 0 c.items) × (1 ≤ use_count 7 0 (on_close 7 c.items).0)
session_kept_example = session_kept 7 100 0 (ticks ∷ handles 0 ∷ stops ∷ [])
