-- ===== src/Channel/OneRead.antt =====
-- A connection never has more reads under way than it began with.
use fighting_card.Base.{
  Holds, ℕ, suc, ◌≤◌, ◌≡◌, inl, inr, Bool, true, false, some, List, [], ◌∷◌, arith, length,
  length-append, Bool-cases, Option-cases,
}
use mathlib.Core.Path.{subst}
use fighting_card.Buffer.{Layout, store, size_valid, get_body_size}
use fighting_card.Buffer.Memory.{Mem}
use fighting_card.Channel.{
  Task, push, shut, World, Event, writes, closes, task, written, arrived, ErrorCode, success,
  aborted, failed, Reading, of_header, of_body, ask, ask_all, step, step_task, step_written,
  step_arrived, run, run_task, on_written, write_posted, pop_and_go_on, do_write, on_header,
  on_body,
}
use fighting_card.Channel.Queue.{at_queue}

module _ {B : Type 0} (l : Layout) (on_read_body : Mem → Bool) (n : ℕ) where
  abbrev Below : World B → Type 0
  Below w = length w.reading ≤ n

  task-Below :
      (w : World B) (bufs : List B) (ts : List (Task B)) (writing : List B)
      → Below w
      → Holds (step_task l on_read_body (at_queue w bufs ts writing) ts) Below
  unfolding step_task run_task write_posted do_write ask_all ask
  task-Below w bufs [] writing h = h
  task-Below w [] (push b ∷ ts) writing h = h
  task-Below w (front ∷ rest) (push b ∷ ts) writing h = h
  task-Below w bufs (shut ∷ ts) writing h = h

  written-Below :
      (w : World B) (ec : ErrorCode) (bufs : List B) (ts : List (Task B)) (writing : List B)
      → Below w
      → Holds (step_written l on_read_body (at_queue w bufs ts writing) ec writing) Below
  unfolding step_written on_written pop_and_go_on do_write ask_all ask
  written-Below w ec bufs ts [] h = h
  written-Below w success [] ts (b ∷ bs) h = tt
  written-Below w success (front ∷ []) ts (b ∷ bs) h = h
  written-Below w success (front ∷ next ∷ rest) ts (b ∷ bs) h = h
  written-Below w aborted bufs ts (b ∷ bs) h = h
  written-Below w failed bufs ts (b ∷ bs) h = h

  header-Below :
      (w : World B) (ec : ErrorCode)
      → suc (length w.reading) ≤ n
      → Below (ask_all l (on_header l w.channel ec) w)
  unfolding on_header ask_all ask
  header-Below w success h = elim (Bool-cases (size_valid l w.channel.read_buf)) [
    | inl e ↦
        rw e (
          omega
            (arith, length-append w.reading (of_body (get_body_size l w.channel.read_buf) ∷ [])))
    | inr e ↦ rw e (omega arith)
  ]
  header-Below w aborted h = omega arith
  header-Below w failed h = omega arith

  body-Below :
      (w : World B) (ec : ErrorCode) (accepted : Bool)
      → suc (length w.reading) ≤ n
      → Below (ask_all l (on_body accepted ec) w)
  unfolding on_body ask_all ask
  body-Below w success true h = omega (arith, length-append w.reading (of_header ∷ []))
  body-Below w success false h = omega arith
  body-Below w aborted accepted h = omega arith
  body-Below w failed accepted h = omega arith

  arrived-Below :
      (w : World B) (ec : ErrorCode) (bytes : List ℕ) (rs : List Reading)
      → Below w
      → length rs ≤ n
      → Holds (step_arrived l on_read_body w ec bytes rs) Below
  unfolding step_arrived
  arrived-Below w ec bytes [] h k = h
  arrived-Below w ec bytes (of_header ∷ rs) h k =
      elim (Option-cases (store l 0 bytes w.channel.read_buf)) [
        | inl e ↦ rw (e, step_arrived) tt
        | inr (mem, e) ↦ rw (e, step_arrived) (header-Below _ ec k)
      ]
  arrived-Below w success bytes (of_body m ∷ rs) h k =
      elim (Option-cases (store l l.header_size bytes w.channel.read_buf)) [
        | inl e ↦ rw (e, step_arrived) tt
        | inr (mem, e) ↦ rw (e, step_arrived) (body-Below _ success (on_read_body mem) k)
      ]
  arrived-Below w ec bytes (of_body m ∷ rs) h k =
      elim (Option-cases (store l l.header_size bytes w.channel.read_buf)) [
        | inl e ↦ rw (e, step_arrived) tt
        | inr (mem, e) ↦ rw (e, step_arrived) (body-Below _ _ false k)
      ]

  step-Below : (w : World B) (e : Event B) → Below w → Holds (step l on_read_body w e) Below
  unfolding step ask_all ask
  step-Below w (writes b) h = h
  step-Below w closes h = h
  step-Below w task h = task-Below w w.channel.write_bufs w.posted w.writing h
  step-Below w (written ec) h = written-Below w ec w.channel.write_bufs w.posted w.writing h
  step-Below w (arrived ec bytes) h = arrived-Below w ec bytes w.reading h h

  run-Below : (w : World B) (es : List (Event B)) → Below w → Holds (run l on_read_body w es) Below
  unfolding run
  run-Below w [] h = h
  run-Below w (e ∷ es) h = elim (Option-cases (step l on_read_body w e)) [
    | inl none_next ↦ rw (none_next, run) tt
    | inr (next, to_next) ↦ rw (to_next, run) (run-Below next es (rw to_next at (step-Below w e h)))
  ]

-- Over any history of events the number of reads under way does not grow. So a session, which
-- begins with the one read of `DoReadHeader`, never has two reads into its one buffer.
pub run-reading-le :
    {B : Type 0} (l : Layout) (on_read_body : Mem → Bool) (es : List (Event B)) (w next : World B)
    → run l on_read_body w es ≡ some next
    → length next.reading ≤ length w.reading
run-reading-le l on_read_body es w next e =
    subst (λ r. Holds r (λ v. length v.reading ≤ length w.reading)) e
      (run-Below l on_read_body (length w.reading) w es (omega arith))
