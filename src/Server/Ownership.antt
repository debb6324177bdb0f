-- ===== src/Server/Ownership.antt =====
-- server/user_session.cpp, `Init` and `OnClose`: the references to a session. The session owns
-- `timer_`, whose items own the functions that are bound to the session; `asio` owns a session
-- through each handler and task that it has of it. A function is the address it is bound to.
use fighting_card.Base.{
  ℕ, zero, suc, ◌+◌, ◌≡◌, ◌≤◌, ◌∙◌, refl, ap, List, [], ◌∷◌, map, arith, ◌==◌, if◌then◌else◌,
}
use fighting_card.Timer
use fighting_card.Timer.{
  Item, Wait, idle, until, over, Event, ticks, stops, handles, Clock, add, timer_loop, stop,
  on_wait, expire_all, handle, handle_at,
}
use fighting_card.Server.{check_alive_time, Task, closes}

-- `UserSession::Init` of the session `p` at the time `now`: `CheckAlive` is bound to
-- `shared_from_this()`.
unfoldable pub init_session : ℕ → ℕ → List (Item ℕ) → List (Item ℕ)
init_session p now items = Timer.run now (add check_alive_time p items)

-- `UserSession::OnClose`: the timers stop, and the task is posted that takes the session out of
-- the tables.
unfoldable pub on_close : ℕ → List (Item ℕ) → List (Item ℕ) × List Task
on_close p items = (stop items, closes p ∷ [])

-- How many of the functions are bound to `p`.
abbrev pub bound : ℕ → List ℕ → ℕ
bound p [] = 0
bound p (q ∷ funcs) = if p == q then suc (bound p funcs) else bound p funcs

-- `use_count()` of the session, with the handlers and tasks that asio has of it.
abbrev pub use_count : ℕ → ℕ → List (Item ℕ) → ℕ
use_count p by_asio items = by_asio + bound p (map (λ i. i.func) items)

module _ {F : Type 0} where
  abbrev funcs : List (Item F) → List F
  funcs = map (λ i. i.func)

  stop-funcs : (items : List (Item F)) → funcs (stop items) ≡ funcs items
  unfolding stop
  stop-funcs [] = refl
  stop-funcs (i ∷ items) = ap (◌∷◌ i.func) (stop-funcs items)

  run-funcs : (now : ℕ) (items : List (Item F)) → funcs (Timer.run now items) ≡ funcs items
  unfolding Timer.run timer_loop
  run-funcs now [] = refl
  run-funcs now (i ∷ items) = ap (◌∷◌ i.func) (run-funcs now items)

  expire-funcs : (now : ℕ) (items : List (Item F)) → funcs (expire_all now items) ≡ funcs items
  unfolding expire_all
  expire-funcs now [] = refl
  expire-funcs now (i ∷ items) = ap (◌∷◌ i.func) (expire-funcs now items)

  handle-func : (w : Wait) (now : ℕ) (i : Item F) → (handle w now i).0.func ≡ i.func
  unfolding on_wait timer_loop
  handle-func idle now i = refl
  handle-func (until t) now i = refl
  handle-func over now i = refl

  handle-funcs : (k now : ℕ) (items : List (Item F)) → funcs (handle_at k now items).0 ≡ funcs items
  unfolding handle_at
  handle-funcs k now [] = refl
  handle-funcs zero now (i ∷ items) = ap (λ f. f ∷ funcs items) (handle-func i.wait now i)
  handle-funcs (suc k) now (i ∷ items) = ap (◌∷◌ i.func) (handle-funcs k now items)

  -- No event changes which functions a `TimerManager` owns.
  pub history-funcs :
      (es : List Event) (c : Clock F) → funcs (Timer.history c es).items ≡ funcs c.items
  unfolding Timer.history Timer.step
  history-funcs [] c = refl
  history-funcs (ticks ∷ es) c =
      history-funcs es (record c { now = suc c.now; items = expire_all (suc c.now) c.items })
      ∙ expire-funcs (suc c.now) c.items
  history-funcs (stops ∷ es) c =
      history-funcs es (record c { items = stop c.items }) ∙ stop-funcs c.items
  history-funcs (handles k ∷ es) c =
      history-funcs es (Timer.step c (handles k)) ∙ handle-funcs k c.now c.items

-- From `Init` on the count of a session never comes to 0, whatever its timers do and whatever asio
-- gives up, also when `OnClose` has stopped the timers: the session is never freed.
pub session_kept :
    (p now by_asio : ℕ) (es : List Event)
    → let c = Timer.history (record { now = now; items = init_session p now []; calls = [] }) es in
      (1 ≤ use_count p by_asio c.items) × (1 ≤ use_count p by_asio (on_close p c.items).0)
unfolding init_session on_close add
session_kept p now by_asio es = (
  rw kept (omega (arith, own)),
  rw (stop-funcs (Timer.history start es).items, kept) (omega (arith, own)),
)
  where
    start : Clock ℕ
    start = record { now = now; items = init_session p now []; calls = [] }

    kept : map (λ i. i.func) (Timer.history start es).items ≡ p ∷ []
    kept = history-funcs es start ∙ run-funcs now (add check_alive_time p [])

    own : bound p (p ∷ []) ≡ 1
    own = ground arith
