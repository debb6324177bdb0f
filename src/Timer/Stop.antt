-- ===== src/Timer/Stop.antt =====
-- What `Stop` stops.
use fighting_card.Base.{ℕ, zero, suc, ◌≡◌, ◌≢◌, ◌∙◌, refl, sym, List, [], ◌∷◌, append-nil, All}
use fighting_card.Timer.{
  Wait, idle, until, over, Item, stop, cancel, expire_all, handle_at, Event, ticks, stops, handles,
  Clock, stamped, step, history,
}

cancel-Idle : (w : Wait) → w ≢ over → cancel w ≡ idle
cancel-Idle idle h = refl
cancel-Idle (until t) h = refl
cancel-Idle over h = absurd (h refl)

idle≢over : idle ≢ over
idle≢over e = cc e

module _ {F : Type 0} where
  -- No handler is on its way.
  abbrev pub NoneOver : List (Item F) → Type 0
  NoneOver = All (λ i. i.wait ≢ over)

  AllIdle : List (Item F) → Type 0
  AllIdle = All (λ i. i.wait ≡ idle)

  idle-NoneOver : (items : List (Item F)) → AllIdle items → NoneOver items
  unfolding AllIdle
  idle-NoneOver [] h = tt
  idle-NoneOver (i ∷ items) h = (λ e. idle≢over (sym h.0 ∙ e), idle-NoneOver items h.1)

  stop-AllIdle : (items : List (Item F)) → NoneOver items → AllIdle (stop items)
  unfolding stop AllIdle
  stop-AllIdle [] h = tt
  stop-AllIdle (i ∷ items) h = (cancel-Idle i.wait h.0, stop-AllIdle items h.1)

  expire-AllIdle :
      (now : ℕ) (items : List (Item F)) → AllIdle items → AllIdle (expire_all now items)
  unfolding expire_all AllIdle
  expire-AllIdle now [] h = tt
  expire-AllIdle now (i ∷ items) h = (rw h.0, expire-AllIdle now items h.1)

  handle-idle :
      (k now : ℕ) (items : List (Item F)) → AllIdle items → handle_at k now items ≡ (items, [])
  unfolding handle_at AllIdle
  handle-idle k now [] h = refl
  handle-idle zero now (i ∷ items) h = rw h.0
  handle-idle (suc k) now (i ∷ items) h = rw (handle-idle k now items h.1)

  step-silent :
      (c : Clock F) (e : Event)
      → AllIdle c.items
      → ((step c e).calls ≡ c.calls) × AllIdle (step c e).items
  unfolding step stamped
  step-silent c ticks h = (refl, expire-AllIdle (suc c.now) c.items h)
  step-silent c stops h = (refl, stop-AllIdle c.items (idle-NoneOver c.items h))
  step-silent c (handles k) h = rw (handle-idle k c.now c.items h) (append-nil c.calls, h)

  history-silent :
      (c : Clock F) (es : List Event) → AllIdle c.items → (history c es).calls ≡ c.calls
  unfolding history
  history-silent c [] h = refl
  history-silent c (e ∷ es) h =
      history-silent (step c e) es (step-silent c e h).1 ∙ (step-silent c e h).0

  -- After `Stop` no function is called any more, whatever happens, if no handler was on its way
  -- when it was called.
  pub stop_silences :
      (c : Clock F) (es : List Event) → NoneOver c.items → (history c (stops ∷ es)).calls ≡ c.calls
  unfolding history step
  stop_silences c es h = history-silent (step c stops) es (stop-AllIdle c.items h)
