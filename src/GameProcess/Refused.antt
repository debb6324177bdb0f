-- ===== src/GameProcess/Refused.antt =====
-- What one accept that fails does to the server.
use fighting_card.Base.{
  ℕ, ◌≡◌, refl, sym, ◌∙◌, ap, Bool, true, Option, none, some, List, [], ◌∷◌, Option-cases, inl, inr,
  Holds, Holds-bind, Holds-if, Holds-then,
}
use mathlib.Core.Path.{subst}
use fighting_card.Base.Text.{Text}
use fighting_card.Config.{ServerConfig}
use fighting_card.Acceptor.{on_accept, GameServer, handle_accept}
use fighting_card.Server.{LoginReq}
use fighting_card.Server.Session.{init_processor}
use fighting_card.Start.{Step, join_logic, join_pool}
use fighting_card.Threads.{LogicIo, take_handler, run_master}
use fighting_card.Threads.Order.{SameThread, take-SameThread, run_master-idle}
use fighting_card.GameProcess.{
  init_timers, World, Event, main_goes_on, accepts, Job, start_up, does, jobs, main_next,
  call_handler, is_accepting, may_throw, step, run, mastered, after_accept,
}
use fighting_card.GameProcess.Kept.{step-Holds, running-Holds, run-Holds}
use fighting_card.GameProcess.Points.{
  IsAt, at_master, at_join, rest_of, moved, blocked, posted-IsAt, taken-IsAt,
}

-- `main` is at its joins, no accept is under way, and the sessions are `ss`.
pub record IsStranded (c : ServerConfig) {P : Type 0} (ss : List (ℕ × ℕ)) (w : World P)
    : Type 0 where
  pub joining : IsAt c at_join w.main w.status w.logic
  pub no_accept : w.gate.accepting ≡ none
  pub same_sessions : w.gate.sessions ≡ ss

-- The step that `main` is at then does not throw.
join_cannot :
    (s : Step) (rest : List Step) → join_logic ∷ join_pool ∷ [] ≡ s ∷ rest → may_throw s ≡ true → ⊥
join_cannot s rest e may = cc (e, may)

module _ {P : Type 0} (create : Text → Option P) (parse : List ℕ → P → P)
    (login_of : P → Option LoginReq) (ping_of : P → Bool) (c : ServerConfig)
    (ss : List (ℕ × ℕ)) where
  call-IsStranded :
      (w : World P) (now : ℕ) (r : Option (LogicIo Job × Job))
      → Holds r (SameThread w.logic)
      → IsStranded c ss w
      → Holds (call_handler create parse login_of ping_of now w r) (IsStranded c ss)
  call-IsStranded w now none same v = v
  call-IsStranded w now (some (logic, start_up)) same v =
      Holds-bind (init_processor login_of ping_of)
        (λ processor.
          some (record w { logic = logic; processor = processor; timers = init_timers now }))
        (IsStranded c ss)
        (λ processor eq. record {
          joining = taken-IsAt c w at_join (logic, start_up) same v.joining;
          no_accept = v.no_accept;
          same_sessions = v.same_sessions;
        })
  call-IsStranded w now (some (logic, does t)) same v = record {
    joining = taken-IsAt c w at_join (logic, does t) same v.joining;
    no_accept = v.no_accept;
    same_sessions = v.same_sessions;
  }

  step-IsStranded :
      (w : World P) (e : Event)
      → IsStranded c ss w
      → Holds (step create parse login_of ping_of w e) (IsStranded c ss)
  step-IsStranded w e v =
      step-Holds create parse login_of ping_of (IsStranded c ss) w e v
        (subst (λ s. Holds (main_next w s) (IsStranded c ss)) (sym v.joining.main_rest)
          (rw (blocked c w v.joining) v))
        (λ s rest threw ahead may.
          absurd (join_cannot s rest (sym v.joining.main_rest ∙ ahead) may))
        (λ now called. call-IsStranded w now (take_handler w.logic) (take-SameThread w.logic) v)
        (λ now failed session gate pending done. absurd (cc (pending, ap is_accepting v.no_accept)))
        (λ q ts s known same. record {
          joining = posted-IsAt c w at_join ts v.joining;
          no_accept = v.no_accept;
          same_sessions = v.same_sessions;
        })

-- What an accept that fails leaves of the acceptor.
abbrev IsEnded : GameServer → GameServer → Type 0
IsEnded g h = (h.accepting ≡ none) × (h.sessions ≡ g.sessions)

failed-IsEnded : (g : GameServer) (session : ℕ) → Holds (on_accept g (true, session)) (IsEnded g)
unfolding on_accept
failed-IsEnded g session = elim (Option-cases g.accepting) [
  | inl e ↦ subst (λ o. Holds (handle_accept g true session o) (IsEnded g)) (sym e) (e, refl)
  | inr (service, e) ↦
      subst (λ o. Holds (handle_accept g true session o) (IsEnded g)) (sym e) (refl, refl)
]

module _ {P : Type 0} (create : Text → Option P) (parse : List ℕ → P → P)
    (login_of : P → Option LoginReq) (ping_of : P → Bool) (c : ServerConfig) where
  -- `main` is in `Run` of the master thread, with the sessions `ss` and no accept under way.
  abbrev IsIdle : List (ℕ × ℕ) → World P → Type 0
  IsIdle ss w =
      IsAt c at_master w.main w.status w.logic × (w.gate.accepting ≡ none) × (w.gate.sessions ≡ ss)

  idle-IsStranded :
      (ss : List (ℕ × ℕ)) (w : World P)
      → IsIdle ss w
      → Holds (step create parse login_of ping_of w main_goes_on) (IsStranded c ss)
  idle-IsStranded ss w (v, idle, same) =
      running-Holds create parse login_of ping_of (IsStranded c ss) w main_goes_on v.no_status (
        subst (λ s. Holds (main_next w s) (IsStranded c ss)) (sym v.main_rest)
          (subst (λ r. IsStranded c ss (mastered (rest_of c at_join) w r))
            (sym (ap (λ o. run_master (is_accepting o) w.master) idle ∙ run_master-idle w.master))
            (record {
              joining = moved c w at_master at_join refl v;
              no_accept = idle;
              same_sessions = same;
            })))

  failed-IsIdle :
      (w : World P) (now session : ℕ)
      → IsAt c at_master w.main w.status w.logic
      → w.master.running ≡ true
      → Holds
          (step create parse login_of ping_of w (accepts now true session))
          (IsIdle w.gate.sessions)
  failed-IsIdle w now session v up =
      running-Holds create parse login_of ping_of (IsIdle w.gate.sessions) w
        (accepts now true session) v.no_status
        (Holds-if w.master.running _ (some w) (IsIdle w.gate.sessions)
          (λ running. elim (Option-cases w.gate.accepting) [
            | inl idle ↦
                Holds-if (is_accepting w.gate.accepting) _ (some w) (IsIdle w.gate.sessions)
                  (λ pending. absurd (cc (pending, ap is_accepting idle)))
                  (λ none_pending. (v, idle, refl))
            | inr (service, e) ↦
                Holds-if (is_accepting w.gate.accepting) _ (some w) (IsIdle w.gate.sessions)
                  (λ pending.
                    Holds-then (on_accept w.gate (true, session))
                      (λ gate. some (after_accept now true session w gate)) (IsEnded w.gate)
                      (IsIdle w.gate.sessions) (failed-IsEnded w.gate session)
                      (λ gate h. (posted-IsAt c w at_master (jobs gate.posted) v, h.0, h.1)))
                  (λ none_pending. absurd (cc (none_pending, ap is_accepting e)))
          ])
          (λ down. absurd (cc (up, down))))

  -- Once `main` is in `Run` of the master thread, an accept that fails ends `Run`: `main` goes on
  -- to the join of the logic thread, which waits for ever, and no further session begins.
  pub failed_accept_strands :
      (w last : World P) (now session : ℕ) (es : List Event)
      → IsAt c at_master w.main w.status w.logic
      → w.master.running ≡ true
      → run create parse login_of ping_of w (accepts now true session ∷ main_goes_on ∷ es)
        ≡ some last
      → (last.main ≡ rest_of c at_join)
        × (last.status ≡ none)
        × (last.gate.sessions ≡ w.gate.sessions)
  unfolding run
  failed_accept_strands w last now session es v up ran =
      let end =
        subst (λ r. Holds r (IsStranded c w.gate.sessions)) ran
          (Holds-then (step create parse login_of ping_of w (accepts now true session)) _
            (IsIdle w.gate.sessions) (IsStranded c w.gate.sessions)
            (failed-IsIdle w now session v up)
            (λ u h.
              Holds-then (step create parse login_of ping_of u main_goes_on) _
                (IsStranded c w.gate.sessions) (IsStranded c w.gate.sessions)
                (idle-IsStranded w.gate.sessions u h)
                (λ z.
                  run-Holds create parse login_of ping_of (IsStranded c w.gate.sessions)
                    (step-IsStranded create parse login_of ping_of c w.gate.sessions) z es))) in
      (end.joining.main_rest, end.joining.no_status, end.same_sessions)
