-- ===== src/Channel/Fifo.antt =====
-- What the write queue promises of a connection, from its beginning.
use fighting_card.Base.{
  Holds, Bool, false, Option, none, some, List, [], ◌∷◌, ◌++◌, ◌≡◌, ◌⊎◌, inl, inr, refl, append-nil,
  take, All,
}
use mathlib.Core.Path.{subst}
use fighting_card.Buffer.{Layout}
use fighting_card.Buffer.Memory.{Mem}
use fighting_card.Channel.{
  World, Event, writes, closes, task, written, arrived, Reading, step, run, success, aborted,
  failed,
}
use fighting_card.Channel.Queue.{WorldInv, Returns, requests, pushes}
use fighting_card.Channel.Order.{run-Inv, step_queue-Inv, asked_after, AllowedEvent, IsQueueEvent}

module _ {B : Type 0} where
  -- A connection to which nothing has been written.
  abbrev pub quiet : Mem → List Reading → World B
  quiet mem reading = record {
    channel = record { read_buf = mem; write_bufs = [] };
    posted = [];
    writing = [];
    reading = reading;
    sent = [];
    frames = [];
    closed = false;
  }

  quiet-Inv :
      (Fails : Type 0) (mem : Mem) (reading : List Reading) → WorldInv Fails [] (quiet mem reading)
  quiet-Inv Fails mem reading = record { fifo = refl; one = inl refl }

  Returns-some :
      (r : Option (World B)) (P : World B → Type 0) → Returns r P → (w : World B) × (r ≡ some w)
  Returns-some none P h = absurd h
  Returns-some (some w) P h = (w, refl)

module _ {B : Type 0} (l : Layout) (on_read_body : Mem → Bool) (mem : Mem) (reading : List Reading)
    (es : List (Event B)) (w : World B)
    (ran : run l on_read_body (quiet mem reading) es ≡ some w) where
  reached : (Fails : Type 0) → All (AllowedEvent Fails) es → WorldInv Fails (requests es) w
  reached Fails allowed =
      subst (λ r. Holds r (WorldInv Fails (requests es))) ran
        (run-Inv l on_read_body Fails [] es (quiet mem reading) allowed
          (quiet-Inv Fails mem reading))

  All-allowed : (fs : List (Event B)) → All (AllowedEvent Unit) fs
  All-allowed [] = tt
  All-allowed (writes b ∷ fs) = (tt, All-allowed fs)
  All-allowed (closes ∷ fs) = (tt, All-allowed fs)
  All-allowed (task ∷ fs) = (tt, All-allowed fs)
  All-allowed (arrived ec bytes ∷ fs) = (tt, All-allowed fs)
  All-allowed (written success ∷ fs) = (tt, All-allowed fs)
  All-allowed (written aborted ∷ fs) = (tt, All-allowed fs)
  All-allowed (written failed ∷ fs) = (tt, All-allowed fs)

  -- After any history of a connection, the buffers sent, those queued and those posted are, in
  -- this order, the buffers that `Write` was called with, each once; and asio has at most one
  -- write, of the oldest queued buffer.
  pub run_fifo :
      (w.sent ++ (w.channel.write_bufs ++ pushes w.posted) ≡ requests es)
      × ((w.writing ≡ take 1 w.channel.write_bufs) ⊎ (w.writing ≡ []))
  run_fifo = (v.fifo, one v.one)
    where
      v : WorldInv Unit (requests es) w
      v = reached Unit (All-allowed es)

      one :
          (w.writing ≡ take 1 w.channel.write_bufs) ⊎ (Unit {0} × (w.writing ≡ []))
          → (w.writing ≡ take 1 w.channel.write_bufs) ⊎ (w.writing ≡ [])
      one (inl e) = inl e
      one (inr (f, e)) = inr e

  -- If no write failed, then once no task is posted and asio has no write left, every buffer that
  -- `Write` was called with has been sent, in order.
  pub run_drained : All (AllowedEvent ⊥) es → w.posted ≡ [] → w.writing ≡ [] → w.sent ≡ requests es
  run_drained clean no_task no_write = drained w.channel.write_bufs refl v.one
    where
      v : WorldInv ⊥ (requests es) w
      v = reached ⊥ clean

      drained :
          (bufs : List B)
          → w.channel.write_bufs ≡ bufs
          → (w.writing ≡ take 1 w.channel.write_bufs) ⊎ (⊥ × (w.writing ≡ []))
          → w.sent ≡ requests es
      drained bufs e (inr (f, _)) = absurd f
      drained [] e (inl _) = rw (no_task, e, append-nil w.sent) at v.fifo
      drained (b ∷ bs) e (inl front) = cc (rw e at front)

  -- After any history the write side never faults: a call of `Write` or `Close`, a posted task and
  -- a completed write always have a result, so `front()` is never called on an empty queue.
  pub run_queue_total :
      (e : Event B) → IsQueueEvent e → (next : World B) × (step l on_read_body w e ≡ some next)
  run_queue_total e q =
      Returns-some (step l on_read_body w e) (WorldInv Unit (asked_after (requests es) e)) (
        step_queue-Inv l on_read_body Unit (requests es) w e q (All-allowed (e ∷ [])).0
          (reached Unit (All-allowed es)))
