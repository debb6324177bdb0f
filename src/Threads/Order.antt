-- ===== src/Threads/Order.antt =====
-- What the logic thread calls, and when it can be joined.
use fighting_card.Base.{
  ◌≡◌, ◌⊎◌, ◌∙◌, refl, ap, ◌||◌, true, false, ◌&&◌, not, if◌then◌else◌, Bool-cases, inl, inr, Holds,
  some, List, [], ◌∷◌, ◌++◌,
}
use fighting_card.Threads.{
  LogicIo, MasterIo, run_master, post, next_handler, take_handler, stop, join, joined, returns,
  blocks, throws, Joining,
}

module _ {T : Type 0} where
  -- A thread that runs, with handlers that wait.
  abbrev pub with_handlers : List T → LogicIo T
  with_handlers ts = record {
    io_service = record { handlers = ts; work = true; stopped = false };
    thread = true;
  }

  pub take_handler-first :
      (t : T) (ts : List T) → take_handler (with_handlers (t ∷ ts)) ≡ some (with_handlers ts, t)
  unfolding take_handler
  take_handler-first t ts = refl

  pub post-behind : (ts us : List T) → post (with_handlers ts) us ≡ with_handlers (ts ++ us)
  unfolding post
  post-behind ts us = refl

  pub join-blocks : (ts : List T) → join (with_handlers ts) ≡ blocks
  unfolding join returns
  join-blocks [] = refl
  join-blocks (t ∷ ts) = refl

  pub join-stop :
      (ts : List T)
      → join (stop (with_handlers ts))
        ≡ joined (record (stop (with_handlers ts)) { thread = false })
  unfolding join returns stop
  join-stop ts = refl

  -- A handler that was taken leaves the thread and its service up or down as they were.
  abbrev pub SameThread : LogicIo T → LogicIo T × T → Type 0
  SameThread l r =
      (r.0.thread ≡ l.thread)
      × (r.0.io_service.stopped ≡ l.io_service.stopped)
      × (r.0.io_service.work ≡ l.io_service.work)

  next-SameThread : (l : LogicIo T) (ts : List T) → Holds (next_handler l ts) (SameThread l)
  next-SameThread l [] = tt
  next-SameThread l (t ∷ ts) = (refl, refl, refl)

  pub take-SameThread : (l : LogicIo T) → Holds (take_handler l) (SameThread l)
  unfolding take_handler
  take-SameThread l = elim (Bool-cases (l.thread && not l.io_service.stopped)) [
    | inl e ↦ rw e (next-SameThread l l.io_service.handlers)
    | inr e ↦ rw e tt
  ]

-- With no accept under way `Run` returns.
pub run_master-idle : (m : MasterIo) → run_master false m ≡ (record m { running = false }, true)
unfolding run_master
run_master-idle m = elim (Bool-cases m.stopped) [
  | inl e ↦
      ap
        (λ b.
          if b || true
          then (record m { running = false }, true)
          else (record m { running = true }, false))
        e
  | inr e ↦
      ap
        (λ b.
          if b || true
          then (record m { running = false }, true)
          else (record m { running = true }, false))
        e
]

pub join-cases :
    {T : Type 0} (l : LogicIo T)
    → (join l ≡ throws) ⊎ ((join l ≡ blocks) ⊎ (join l ≡ joined (record l { thread = false })))
unfolding join
join-cases {T = T} l = elim (Bool-cases l.thread) [
  | inr e ↦ inl (ap (λ b. if b then up l else throws) e)
  | inl e ↦ elim (Bool-cases (returns l.io_service)) [
    | inl r ↦ inr (
        inr (
          ap (λ b. if b then up l else throws) e
          ∙ ap (λ b. if b then joined (record l { thread = false }) else blocks) r))
    | inr r ↦ inr (
        inl (
          ap (λ b. if b then up l else throws) e
          ∙ ap (λ b. if b then joined (record l { thread = false }) else blocks) r))
  ]
]
  where
    up : LogicIo T → Joining T
    up k = if returns k.io_service then joined (record k { thread = false }) else blocks
