-- ===== src/Channel/Order.antt =====
-- The write queue over any history of calls, posted tasks and completions.
use fighting_card.Base.{
  Holds, ℕ, Bool, false, Option, none, some, List, [], ◌∷◌, ◌++◌, ◌≡◌, inl, inr, refl, append_assoc,
  append-nil, All, Option-cases,
}
use fighting_card.Buffer.{Layout, store}
use fighting_card.Buffer.Memory.{Mem}
use fighting_card.Channel.{
  World, Event, writes, closes, task, written, arrived, ErrorCode, success, Reading, of_header,
  of_body, ask, ask_all, step, step_arrived, run,
}
use fighting_card.Channel.Queue.{
  WorldInv, Returns, Allowed, requests, post_push-Inv, step_task-Inv, step_written-Inv,
  after_header-Inv, after_body-Inv, closes-Inv,
}

module _ {B : Type 0} where
  Returns-Holds : (r : Option (World B)) (P : World B → Type 0) → Returns r P → Holds r P
  Returns-Holds none P h = tt
  Returns-Holds (some w) P h = h

  -- The requests after an event.
  abbrev pub asked_after : List B → Event B → List B
  asked_after asked (writes b) = asked ++ b ∷ []
  asked_after asked e = asked

  abbrev pub AllowedEvent : Type 0 → Event B → Type 0
  AllowedEvent Fails (written ec) = Allowed Fails ec
  AllowedEvent Fails e = Unit

  -- The events of the write side always have a result.
  abbrev pub IsQueueEvent : Event B → Type 0
  IsQueueEvent (arrived ec bytes) = ⊥
  IsQueueEvent e = Unit

module _ {B : Type 0} (l : Layout) (on_read_body : Mem → Bool) (Fails : Type 0) where
  step_arrived-Inv :
      (asked : List B) (w : World B) (ec : ErrorCode) (bytes : List ℕ) (rs : List Reading)
      → WorldInv Fails asked w
      → Holds (step_arrived l on_read_body w ec bytes rs) (WorldInv Fails asked)
  unfolding step_arrived
  step_arrived-Inv asked w ec bytes [] v = v
  step_arrived-Inv asked w ec bytes (of_header ∷ rs) v =
      elim (Option-cases (store l 0 bytes w.channel.read_buf)) [
        | inl e ↦ rw (e, step_arrived) tt
        | inr (mem, e) ↦ rw (e, step_arrived) (after_header-Inv l on_read_body Fails asked _ ec v)
      ]
  step_arrived-Inv asked w success bytes (of_body n ∷ rs) v =
      elim (Option-cases (store l l.header_size bytes w.channel.read_buf)) [
        | inl e ↦ rw (e, step_arrived) tt
        | inr (mem, e) ↦
            rw (e, step_arrived)
              (after_body-Inv l on_read_body Fails asked _ success (on_read_body mem) v)
      ]
  step_arrived-Inv asked w ec bytes (of_body n ∷ rs) v =
      elim (Option-cases (store l l.header_size bytes w.channel.read_buf)) [
        | inl e ↦ rw (e, step_arrived) tt
        | inr (mem, e) ↦
            rw (e, step_arrived) (after_body-Inv l on_read_body Fails asked _ _ false v)
      ]

  pub step_queue-Inv :
      (asked : List B) (w : World B) (e : Event B)
      → IsQueueEvent e
      → AllowedEvent Fails e
      → WorldInv Fails asked w
      → Returns (step l on_read_body w e) (WorldInv Fails (asked_after asked e))
  unfolding step ask_all ask
  step_queue-Inv asked w (writes b) q f v =
      post_push-Inv Fails asked w.sent w.channel.write_bufs w.posted w.writing v b
  step_queue-Inv asked w closes q f v = closes-Inv l on_read_body Fails asked w v
  step_queue-Inv asked w task q f v =
      step_task-Inv l on_read_body Fails asked w w.channel.write_bufs w.posted w.writing v
  step_queue-Inv asked w (arrived ec bytes) q f v = elim q [ ]
  step_queue-Inv asked w (written ec) q f v =
      step_written-Inv l on_read_body Fails asked w ec w.channel.write_bufs w.posted w.writing f v

  of_queue :
      (asked : List B) (w : World B) (e : Event B)
      → IsQueueEvent e
      → AllowedEvent Fails e
      → WorldInv Fails asked w
      → Holds (step l on_read_body w e) (WorldInv Fails (asked_after asked e))
  of_queue asked w e q f v =
      Returns-Holds (step l on_read_body w e) (WorldInv Fails (asked_after asked e))
        (step_queue-Inv asked w e q f v)

  step-Inv :
      (asked : List B) (w : World B) (e : Event B)
      → AllowedEvent Fails e
      → WorldInv Fails asked w
      → Holds (step l on_read_body w e) (WorldInv Fails (asked_after asked e))
  step-Inv asked w (arrived ec bytes) f v =
      unfold step in step_arrived-Inv asked w ec bytes w.reading v
  step-Inv asked w (writes b) f v = of_queue asked w (writes b) tt f v
  step-Inv asked w closes f v = of_queue asked w closes tt f v
  step-Inv asked w task f v = of_queue asked w task tt f v
  step-Inv asked w (written ec) f v = of_queue asked w (written ec) tt f v

  pub run-Inv :
      (asked : List B) (es : List (Event B)) (w : World B)
      → All (AllowedEvent Fails) es
      → WorldInv Fails asked w
      → Holds (run l on_read_body w es) (WorldInv Fails (asked ++ requests es))
  unfolding run
  run-Inv asked [] w f v = rw (append-nil asked) v
  run-Inv asked (e ∷ es) w f v = elim (Option-cases (step l on_read_body w e)) [
    | inl none_next ↦ rw (none_next, run) tt
    | inr (next, to_next) ↦
        rw (to_next, run, ← all_asked e)
          (run-Inv (asked_after asked e) es next f.1 (rw to_next at (step-Inv asked w e f.0 v)))
  ]
    where
      all_asked : (e : Event B) → asked_after asked e ++ requests es ≡ asked ++ requests (e ∷ es)
      all_asked (writes b) = append_assoc asked (b ∷ []) (requests es)
      all_asked closes = refl
      all_asked task = refl
      all_asked (written ec) = refl
      all_asked (arrived ec bytes) = refl
