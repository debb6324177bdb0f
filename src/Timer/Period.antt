-- ===== src/Timer/Period.antt =====
-- When the function of a timer is called.
use fighting_card.Base.{
  ℕ, zero, suc, ◌+◌, ◌*◌, ◌<◌, ◌≡◌, ◌∙◌, refl, sym, ap, true, false, List, [], ◌∷◌, ◌++◌, arith,
  leb, append-nil, append_assoc,
}
use fighting_card.Timer.{
  until, add, run, expire_all, timer_loop, on_wait, handle_at, Event, ticks, handles, Clock,
  stamped, step, history,
}

-- Units of time, after each of which the handler of the first timer runs if it is due.
abbrev pub units : ℕ → List Event → List Event
units zero es = es
units (suc n) es = ticks ∷ handles 0 ∷ units n es

abbrev pub periods : ℕ → ℕ → List Event
periods duration zero = []
periods duration (suc q) = units duration (periods duration q)

module _ {F : Type 0} where
  -- A call every `duration` units after `start`.
  abbrev pub calls_from : ℕ → ℕ → F → ℕ → List (ℕ × F)
  calls_from start duration func zero = []
  calls_from start duration func (suc q) =
      (start + duration, func) ∷ calls_from (start + duration) duration func q

  module _ (duration : ℕ) (func : F) where
    armed : ℕ → ℕ → List (ℕ × F) → Clock F
    armed now due calls = record {
      now = now;
      items = record { wait = until due; duration = duration; func = func } ∷ [];
      calls = calls;
    }

    early :
        (now due : ℕ) (calls : List (ℕ × F)) (es : List Event)
        → suc now < due
        → history (armed now due calls) (ticks ∷ handles 0 ∷ es)
          ≡ history (armed (suc now) due calls) es
    unfolding history step armed expire_all handle_at stamped
    early now due calls es h = rw (not_due, append-nil calls)
      where
        not_due : leb due (suc now) ≡ false
        not_due = ground arith

    on_time :
        (now : ℕ) (calls : List (ℕ × F)) (es : List Event)
        → history (armed now (suc now) calls) (ticks ∷ handles 0 ∷ es)
          ≡ history (armed (suc now) (suc now + duration) (calls ++ (suc now, func) ∷ [])) es
    unfolding history step armed expire_all handle_at stamped on_wait timer_loop
    on_time now calls es = rw due
      where
        due : leb (suc now) (suc now) ≡ true
        due = ground arith

    one_period :
        (n now due : ℕ) (calls : List (ℕ × F)) (es : List Event)
        → 0 < n
        → now + n ≡ due
        → history (armed now due calls) (units n es)
          ≡ history (armed due (due + duration) (calls ++ (due, func) ∷ [])) es
    one_period zero now due calls es pos e = absurd (omega (arith, pos))
    one_period (suc zero) now due calls es pos e = rw (sym e) (rw one (on_time now calls es))
      where
        one : now + 1 ≡ suc now
        one = omega arith
    one_period (suc (suc n)) now due calls es pos e =
        early now due calls (units (suc n) es) (omega (arith, e))
        ∙ one_period (suc n) (suc now) due calls es (omega arith) (omega (arith, e))

    all_periods :
        (q start : ℕ) (calls : List (ℕ × F))
        → 0 < duration
        → history (armed start (start + duration) calls) (periods duration q)
          ≡ armed
              (start + q * duration)
              (start + q * duration + duration)
              (calls ++ calls_from start duration func q)
    unfolding history
    all_periods zero start calls pos = rw (append-nil calls, none_yet) refl
      where
        none_yet : start + 0 * duration ≡ start
        none_yet = ground arith
    all_periods (suc q) start calls pos =
        one_period duration start (start + duration) calls (periods duration q) pos refl
        ∙ all_periods q (start + duration) (calls ++ (start + duration, func) ∷ []) pos
        ∙ rw
            (
              next,
              append_assoc calls ((start + duration, func) ∷ [])
                  (calls_from (start + duration) duration func q),
            )
            refl
      where
        next : start + duration + q * duration ≡ start + suc q * duration
        next = ground arith

    -- From `Run` on, with handlers that run when they are due, the function is called once every
    -- `duration` units: `q` times in the first `q * duration` units, at the multiples.
    pub run_periodic :
        (start q : ℕ)
        → 0 < duration
        → (history
            (record { now = start; items = run start (add duration func []); calls = [] })
            (periods duration q)).calls
          ≡ calls_from start duration func q
    unfolding add run timer_loop armed
    run_periodic start q pos = ap (λ c. c.calls) (all_periods q start [] pos)
