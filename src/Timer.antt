-- ===== src/Timer.antt =====
-- common/asio_timer.h: the timers of a connection, in units of `TimeUnit`. A `steady_timer` is its
-- pending wait; asio completes a wait whose time has come, after which `cancel` no longer
-- reaches it, and the handler runs some time later.
pub mod Period
pub mod Stop
pub mod Tests
use fighting_card.Base.{
  ℕ, zero, suc, ◌+◌, Bool, true, false, List, [], ◌∷◌, ◌++◌, leb, if◌then◌else◌,
}

-- No wait, a wait until a time, or a wait that is over and whose handler has yet to run.
pub data Wait : Type 0 where
  idle : Wait
  until : ℕ → Wait
  over : Wait

-- `TimerItem`.
pub record Item (F : Type 0) : Type 0 where
  pub wait : Wait
  pub duration : ℕ
  pub func : F

-- `cancel`: the handler of a pending wait will be told `operation_aborted`.
abbrev pub cancel : Wait → Wait
cancel idle = idle
cancel (until t) = idle
cancel over = over

abbrev pub expire : ℕ → Wait → Wait
expire now idle = idle
expire now (until t) = if leb t now then over else until t
expire now over = over

module _ {F : Type 0} where
  -- `Add`.
  unfoldable pub add : ℕ → F → List (Item F) → List (Item F)
  add duration func items = items ++ record { wait = idle; duration = duration; func = func } ∷ []

  -- `TimerLoop`: `expires_from_now`, which gives up a wait that is pending, and `async_wait`.
  unfoldable pub timer_loop : ℕ → Item F → Item F
  timer_loop now i = record i { wait = until (now + i.duration) }

  -- `Run`.
  unfoldable pub run : ℕ → List (Item F) → List (Item F)
  run now [] = []
  run now (i ∷ items) = timer_loop now i ∷ run now items

  -- `Stop`.
  unfoldable pub stop : List (Item F) → List (Item F)
  stop [] = []
  stop (i ∷ items) = record i { wait = cancel i.wait } ∷ stop items

  -- The handler that `TimerLoop` gives to `async_wait`: the next wait, then `func`.
  unfoldable pub on_wait : Bool → ℕ → Item F → Item F × List F
  on_wait aborted now i = if aborted then (i, []) else (timer_loop now i, i.func ∷ [])

  unfoldable pub expire_all : ℕ → List (Item F) → List (Item F)
  expire_all now [] = []
  expire_all now (i ∷ items) = record i { wait = expire now i.wait } ∷ expire_all now items

  abbrev pub handle : Wait → ℕ → Item F → Item F × List F
  handle idle now i = (i, [])
  handle (until t) now i = (i, [])
  handle over now i = on_wait false now i

  -- The handler of the timer at an index, if it is due.
  unfoldable pub handle_at : ℕ → ℕ → List (Item F) → List (Item F) × List F
  handle_at k now [] = ([], [])
  handle_at zero now (i ∷ items) = let done = handle i.wait now i in (done.0 ∷ items, done.1)
  handle_at (suc k) now (i ∷ items) = let rest = handle_at k now items in (i ∷ rest.0, rest.1)

-- Time goes on by one unit, a handler runs, or the owner calls `Stop`.
pub data Event : Type 0 where
  ticks stops : Event
  handles : ℕ → Event

-- The timers, the time, and the functions that were called with the times of the calls.
pub record Clock (F : Type 0) : Type 0 where
  pub now : ℕ
  pub items : List (Item F)
  pub calls : List (ℕ × F)

module _ {F : Type 0} where
  unfoldable pub stamped : ℕ → List F → List (ℕ × F)
  stamped now [] = []
  stamped now (f ∷ fs) = (now, f) ∷ stamped now fs

  unfoldable pub step : Clock F → Event → Clock F
  step c ticks = record c { now = suc c.now; items = expire_all (suc c.now) c.items }
  step c stops = record c { items = stop c.items }
  step c (handles k) =
      let done = handle_at k c.now c.items in
      record c { items = done.0; calls = c.calls ++ stamped c.now done.1 }

  unfoldable pub history : Clock F → List Event → Clock F
  history c [] = c
  history c (e ∷ es) = history (step c e) es
