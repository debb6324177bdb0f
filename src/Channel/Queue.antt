-- ===== src/Channel/Queue.antt =====
-- The write queue: what was asked to be written is sent once and in order, one write at a time.
use fighting_card.Base.{
  Bool, true, false, Option, none, some, List, [], ◌∷◌, ◌++◌, ◌≡◌, ◌⊎◌, inl, inr, refl, ap,
  append_assoc, append-nil, take, Bool-cases,
}
use fighting_card.Buffer.{Layout, size_valid}
use fighting_card.Buffer.Memory.{Mem}
use fighting_card.Channel.{
  Task, push, shut, World, Event, writes, ErrorCode, success, aborted, failed, ask, ask_all,
  step_task, step_written, run_task, on_written, write_posted, pop_and_go_on, do_write, on_header,
  on_body, close,
}

module _ {B : Type 0} where
  -- The buffers whose push has been posted and has not run.
  abbrev pub pushes : List (Task B) → List B
  pushes [] = []
  pushes (push b ∷ ts) = b ∷ pushes ts
  pushes (shut ∷ ts) = pushes ts

  -- The buffers that `Write` was called with.
  abbrev pub requests : List (Event B) → List B
  requests [] = []
  requests (writes b ∷ es) = b ∷ requests es
  requests (e ∷ es) = requests es

  -- `Write` was called with `asked`: all of it is sent, queued or posted, in that order. asio has
  -- the write of the oldest queued buffer, or none if writes have failed, `Fails`.
  pub record Inv (Fails : Type 0) (asked sent bufs : List B) (posted : List (Task B))
      (writing : List B) : Type 0 where
    pub fifo : sent ++ (bufs ++ pushes posted) ≡ asked
    pub one : (writing ≡ take 1 bufs) ⊎ (Fails × (writing ≡ []))

  abbrev pub WorldInv : Type 0 → List B → World B → Type 0
  WorldInv Fails asked w = Inv Fails asked w.sent w.channel.write_bufs w.posted w.writing

  pushes-append : (ts us : List (Task B)) → pushes (ts ++ us) ≡ pushes ts ++ pushes us
  pushes-append [] us = refl
  pushes-append (push b ∷ ts) us = ap (◌∷◌ b) (pushes-append ts us)
  pushes-append (shut ∷ ts) us = pushes-append ts us

  module _ (Fails : Type 0) (asked sent bufs : List B) (posted : List (Task B)) (writing : List B)
      (v : Inv Fails asked sent bufs posted writing) where
    pub post_push-Inv :
        (b : B) → Inv Fails (asked ++ b ∷ []) sent bufs (posted ++ push b ∷ []) writing
    post_push-Inv b = record {
      fifo = rw (pushes-append posted (push b ∷ []), ← v.fifo) (simp append_assoc);
      one = v.one;
    }

    pub post_shut-Inv : Inv Fails asked sent bufs (posted ++ shut ∷ []) writing
    post_shut-Inv = record {
      fifo = rw (pushes-append posted (shut ∷ []), append-nil (pushes posted)) v.fifo;
      one = v.one;
    }

  -- There is a result, and it has the property.
  abbrev pub Returns : Option (World B) → (World B → Type 0) → Type 0
  Returns none P = ⊥
  Returns (some w) P = P w

  -- A world with the parts that the invariant is about given anew.
  abbrev pub at_queue : World B → List B → List (Task B) → List B → World B
  at_queue w bufs posted writing = record w {
    channel = record w.channel { write_bufs = bufs };
    posted = posted;
    writing = writing;
  }

  module _ {Fails : Type 0} where
    starts :
        {writing : List B} (b : B)
        → (writing ≡ []) ⊎ (Fails × (writing ≡ []))
        → writing ++ b ∷ [] ≡ b ∷ []
    starts b (inl e) = rw e
    starts b (inr (f, e)) = rw e

    is_front :
        (b front : B) (bs rest : List B)
        → (b ∷ bs ≡ take 1 (front ∷ rest)) ⊎ (Fails × (b ∷ bs ≡ []))
        → (b ≡ front) × (bs ≡ [])
    is_front b front bs rest (inl e) = (cc, cc)
    is_front b front bs rest (inr (f, e)) = (cc, cc)

    alone : (b : B) (bs bufs : List B) → (b ∷ bs ≡ take 1 bufs) ⊎ (Fails × (b ∷ bs ≡ [])) → bs ≡ []
    alone b bs [] (inl e) = cc
    alone b bs [] (inr (f, e)) = cc
    alone b bs (front ∷ rest) h = (is_front b front bs rest h).1

    nothing_queued : (b : B) (bs : List B) → (b ∷ bs ≡ take 1 []) ⊎ (Fails × (b ∷ bs ≡ [])) → ⊥
    nothing_queued b bs (inl e) = cc
    nothing_queued b bs (inr (f, e)) = cc

-- A write may complete with an error only if `Fails`.
abbrev pub Allowed : Type 0 → ErrorCode → Type 0
Allowed Fails success = Unit
Allowed Fails aborted = Fails
Allowed Fails failed = Fails

module _ {B : Type 0} (l : Layout) (on_read_body : Mem → Bool) (Fails : Type 0) (asked : List B)
    (w : World B) where
  pub step_task-Inv :
      (bufs : List B) (posted : List (Task B)) (writing : List B)
      → Inv Fails asked w.sent bufs posted writing
      → Returns
          (step_task l on_read_body (at_queue w bufs posted writing) posted)
          (WorldInv Fails asked)
  unfolding step_task run_task write_posted do_write ask_all ask
  step_task-Inv bufs [] writing v = v
  step_task-Inv [] (push b ∷ ts) writing v = record { fifo = v.fifo; one = inl (starts b v.one) }
  step_task-Inv (front ∷ rest) (push b ∷ ts) writing v = record {
    fifo = rw (append_assoc rest (b ∷ []) (pushes ts)) v.fifo;
    one = v.one;
  }
  step_task-Inv bufs (shut ∷ ts) writing v = record { fifo = v.fifo; one = v.one }

  pub step_written-Inv :
      (ec : ErrorCode) (bufs : List B) (posted : List (Task B)) (writing : List B)
      → Allowed Fails ec
      → Inv Fails asked w.sent bufs posted writing
      → Returns
          (step_written l on_read_body (at_queue w bufs posted writing) ec writing)
          (WorldInv Fails asked)
  unfolding step_written on_written pop_and_go_on do_write ask_all ask
  step_written-Inv ec bufs posted [] f v = v
  step_written-Inv success [] posted (b ∷ bs) f v = nothing_queued b bs v.one
  step_written-Inv success (front ∷ []) posted (b ∷ bs) f v =
      let (same, none_left) = is_front b front bs [] v.one in
      record {
        fifo = rw (same, append_assoc w.sent (front ∷ []) (pushes posted)) v.fifo;
        one = inl none_left;
      }
  step_written-Inv success (front ∷ next ∷ rest) posted (b ∷ bs) f v =
      let (same, none_left) = is_front b front bs (next ∷ rest) v.one in
      record {
        fifo = rw (same, append_assoc w.sent (front ∷ []) (next ∷ (rest ++ pushes posted))) v.fifo;
        one = inl (rw none_left);
      }
  step_written-Inv aborted bufs posted (b ∷ bs) f v = record {
    fifo = v.fifo;
    one = inr (f, alone b bs bufs v.one);
  }
  step_written-Inv failed bufs posted (b ∷ bs) f v =
      post_shut-Inv Fails asked w.sent bufs posted bs
        (record { fifo = v.fifo; one = inr (f, alone b bs bufs v.one) })

  -- A read changes nothing that the queue is about, unless it closes the channel.
  pub closes-Inv : WorldInv Fails asked w → WorldInv Fails asked (ask_all l close w)
  unfolding ask_all ask
  closes-Inv v = post_shut-Inv Fails asked w.sent w.channel.write_bufs w.posted w.writing v

  pub after_header-Inv :
      (ec : ErrorCode)
      → WorldInv Fails asked w
      → WorldInv Fails asked (ask_all l (on_header l w.channel ec) w)
  unfolding on_header
  after_header-Inv success v = elim (Bool-cases (size_valid l w.channel.read_buf)) [
    | inl e ↦ rw e (unfold ask_all ask in v)
    | inr e ↦ rw e (closes-Inv v)
  ]
  after_header-Inv aborted v = unfold ask_all in v
  after_header-Inv failed v = closes-Inv v

  pub after_body-Inv :
      (ec : ErrorCode) (accepted : Bool)
      → WorldInv Fails asked w
      → WorldInv Fails asked (ask_all l (on_body accepted ec) w)
  unfolding on_body
  after_body-Inv success true v = unfold ask_all ask in v
  after_body-Inv success false v = closes-Inv v
  after_body-Inv aborted accepted v = unfold ask_all in v
  after_body-Inv failed accepted v = closes-Inv v
