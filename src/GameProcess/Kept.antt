-- ===== src/GameProcess/Kept.antt =====
-- What each kind of event keeps, every schedule keeps.
use fighting_card.Base.{
  ℕ, Bool, true, ◌≡◌, refl, sym, ap, Option, none, some, Bool-cases, inl, inr, All, if◌then◌else◌,
  List, [], ◌∷◌, Holds, Holds-bind, Holds-if,
}
use mathlib.Core.Path.{subst}
use fighting_card.Base.Text.{Text}
use fighting_card.Base.Dict.{Dict}
use fighting_card.Acceptor.{GameServer, on_accept}
use fighting_card.Server
use fighting_card.Start.{Step}
use fighting_card.Server.{LoginReq, Logic}
use fighting_card.Server.Session.{on_read_body}
use fighting_card.Threads.{post, take_handler}
use fighting_card.GameProcess.{
  World, Job, does, react, is_over, may_throw, main_throws, main_catch, jobs, Event, main_goes_on,
  logic_goes_on, accepts, reads, closes, is_accepting, is_session, main_next, call_handler,
  after_accept, after_read, step, run,
}

-- Which names are logged in, and which sessions have ids.
abbrev pub tables : Logic → Dict Text Server.User × Dict ℕ ℕ
tables s = (s.users, s.user_sessions)

-- The exception of `main`.
abbrev pub thrown : {P : Type 0} → World P → World P
thrown w = record w { main = []; status = some 1 }

module _ {P : Type 0} (create : Text → Option P) (parse : List ℕ → P → P)
    (login_of : P → Option LoginReq) (ping_of : P → Bool) (Q : World P → Type 0) (w : World P) where
  -- While `main` has not returned, an event has its effect; then it has none.
  pub running-Holds :
      (e : Event)
      → w.status ≡ none
      → Holds (react create parse login_of ping_of w e) Q
      → Holds (step create parse login_of ping_of w e) Q
  unfolding step
  running-Holds e runs h =
      Holds-if (is_over w.status) (some w) (react create parse login_of ping_of w e) Q
        (λ over. absurd (cc (over, ap is_over runs))) (λ on. h)

  pub over-Holds :
      (e : Event) → is_over w.status ≡ true → Q w → Holds (step create parse login_of ping_of w e) Q
  unfolding step
  over-Holds e over same =
      Holds-if (is_over w.status) (some w) (react create parse login_of ping_of w e) Q (λ o. same)
        (λ on. absurd (cc (over, on)))

  catch-Holds :
      (ss : List Step)
      → Q w
      → ((s : Step) (rest : List Step) → ss ≡ s ∷ rest → may_throw s ≡ true → Q (thrown w))
      → Q (main_catch w ss)
  catch-Holds [] same throws = same
  catch-Holds (s ∷ rest) same throws = elim (Bool-cases (may_throw s)) [
    | inl e ↦ subst (λ b. Q (if b then thrown w else w)) (sym e) (throws s rest refl e)
    | inr e ↦ subst (λ b. Q (if b then thrown w else w)) (sym e) same
  ]

  react-Holds :
      (e : Event)
      → Q w
      → Holds (main_next w w.main) Q
      → ((s : Step) (rest : List Step)
          → e ≡ main_throws
          → w.main ≡ s ∷ rest
          → may_throw s ≡ true
          → Q (thrown w))
      → ((now : ℕ)
          → e ≡ logic_goes_on now
          → Holds (call_handler create parse login_of ping_of now w (take_handler w.logic)) Q)
      → ((now : ℕ) (failed : Bool) (session : ℕ) (gate : GameServer)
          → is_accepting w.gate.accepting ≡ true
          → on_accept w.gate (failed, session) ≡ some gate
          → Q (after_accept now failed session w gate))
      → ((p : ℕ) (ts : List Job) (s : Logic)
          → is_session p w.gate.sessions ≡ true
          → tables s ≡ tables w.server
          → Q (record w { logic = post w.logic ts; server = s }))
      → Holds (react create parse login_of ping_of w e) Q
  react-Holds main_goes_on same main throws logic accept posts = main
  react-Holds main_throws same main throws logic accept posts =
      catch-Holds w.main same (λ s rest ahead may. throws s rest refl ahead may)
  react-Holds (logic_goes_on now) same main throws logic accept posts = logic now refl
  react-Holds (accepts now failed session) same main throws logic accept posts =
      Holds-if w.master.running _ (some w) Q
        (λ up.
          Holds-if (is_accepting w.gate.accepting) _ (some w) Q
            (λ pending.
              Holds-bind (on_accept w.gate (failed, session))
                (λ gate. some (after_accept now failed session w gate)) Q
                (λ gate done. accept now failed session gate pending done))
            (λ idle. same))
        (λ down. same)
  react-Holds (reads now p b) same main throws logic accept posts =
      Holds-if (is_session p w.gate.sessions) _ (some w) Q
        (λ known.
          Holds-bind (on_read_body create parse w.processor now p b (w.server.sessions p))
            (λ r. some (after_read p w r)) Q
            (λ r read. posts p (jobs r.2) (Server.set_session p r.0 w.server) known refl))
        (λ unknown. same)
  react-Holds (closes p) same main throws logic accept posts =
      Holds-if (is_session p w.gate.sessions) _ (some w) Q
        (λ known. posts p (does (Server.closes p) ∷ []) w.server known refl) (λ unknown. same)

  -- What an event does: nothing, a step of `main` or its exception, a handler of the logic thread,
  -- the end of an accept, or a post, with a change of the sessions.
  pub step-Holds :
      (e : Event)
      → Q w
      → Holds (main_next w w.main) Q
      → ((s : Step) (rest : List Step)
          → e ≡ main_throws
          → w.main ≡ s ∷ rest
          → may_throw s ≡ true
          → Q (thrown w))
      → ((now : ℕ)
          → e ≡ logic_goes_on now
          → Holds (call_handler create parse login_of ping_of now w (take_handler w.logic)) Q)
      → ((now : ℕ) (failed : Bool) (session : ℕ) (gate : GameServer)
          → is_accepting w.gate.accepting ≡ true
          → on_accept w.gate (failed, session) ≡ some gate
          → Q (after_accept now failed session w gate))
      → ((p : ℕ) (ts : List Job) (s : Logic)
          → is_session p w.gate.sessions ≡ true
          → tables s ≡ tables w.server
          → Q (record w { logic = post w.logic ts; server = s }))
      → Holds (step create parse login_of ping_of w e) Q
  unfolding step
  step-Holds e same main throws logic accept posts =
      Holds-if (is_over w.status) (some w) (react create parse login_of ping_of w e) Q
        (λ over. same) (λ on. react-Holds e same main throws logic accept posts)

module _ {P : Type 0} (create : Text → Option P) (parse : List ℕ → P → P)
    (login_of : P → Option LoginReq) (ping_of : P → Bool) (Q : World P → Type 0)
    (A : Event → Type 0)
    (kept : (w : World P) (e : Event)
      → A e
      → Q w
      → Holds (step create parse login_of ping_of w e) Q) where
  allowed-Holds :
      (w : World P) (es : List Event)
      → All A es
      → Q w
      → Holds (run create parse login_of ping_of w es) Q
  unfolding run
  allowed-Holds w [] allowed h = h
  allowed-Holds w (e ∷ es) allowed h =
      Holds-bind (step create parse login_of ping_of w e)
        (λ v. run create parse login_of ping_of v es) Q
        (λ v eq. allowed-Holds v es allowed.1 (subst (λ r. Holds r Q) eq (kept w e allowed.0 h)))

  pub allowed_keeps :
      (w v : World P) (es : List Event)
      → All A es
      → Q w
      → run create parse login_of ping_of w es ≡ some v
      → Q v
  allowed_keeps w v es allowed h ran = subst (λ r. Holds r Q) ran (allowed-Holds w es allowed h)

All-allowed : (es : List Event) → All (λ e. Unit {0}) es
All-allowed [] = tt
All-allowed (e ∷ es) = (tt, All-allowed es)

module _ {P : Type 0} (create : Text → Option P) (parse : List ℕ → P → P)
    (login_of : P → Option LoginReq) (ping_of : P → Bool) (Q : World P → Type 0)
    (kept : (w : World P) (e : Event)
      → Q w
      → Holds (step create parse login_of ping_of w e) Q) where
  pub run-Holds :
      (w : World P) (es : List Event) → Q w → Holds (run create parse login_of ping_of w es) Q
  run-Holds w es h =
      allowed-Holds create parse login_of ping_of Q (λ e. Unit {0}) (λ v e u. kept v e) w es
        (All-allowed es) h

  pub run_keeps :
      (w v : World P) (es : List Event)
      → Q w
      → run create parse login_of ping_of w es ≡ some v
      → Q v
  run_keeps w v es h ran = subst (λ r. Holds r Q) ran (run-Holds w es h)
