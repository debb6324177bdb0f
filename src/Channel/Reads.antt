-- ===== src/Channel/Reads.antt =====
-- The read side: one read at a time, and frames that arrive as they were sent.
use fighting_card.Base.{
  ℕ, ◌+◌, ◌≤◌, ◌<◌, ◌≡◌, ◌∙◌, refl, inl, inr, Bool, true, some, List, [], ◌∷◌, ◌++◌, arith, ltb,
  Bool-cases,
}
use fighting_card.Buffer.{Layout, get_body_size, size_valid}
use fighting_card.Buffer.Access.{store-eq-some}
use fighting_card.Buffer.Memory.{
  Mem, write, read, write-outside, read-write_len, write-read, length-read,
}
use fighting_card.Channel.{
  World, arrived, success, of_header, of_body, ask, ask_all, step, step_arrived, run, on_header,
  on_body,
}

module _ (l : Layout) (m : Mem) where
  -- The bytes that `DoWrite` sends of a frame: the header, and the body that it announces.
  abbrev pub header_of : List ℕ
  header_of = read 0 l.header_size m

  abbrev pub body_of : List ℕ
  body_of = read l.header_size (get_body_size l m) m

  -- The array that had `old` in it once both have come.
  abbrev pub received : Mem → Mem
  received old = write l.header_size body_of (write 0 header_of old)

  header_size-kept : (old : Mem) → get_body_size l (write 0 header_of old) ≡ get_body_size l m
  unfolding get_body_size
  header_size-kept old =
      rw (read-write_len 0 l.header_size header_of old (length-read 0 l.header_size m))

  size_valid-kept : (old : Mem) → size_valid l (write 0 header_of old) ≡ size_valid l m
  unfolding size_valid
  size_valid-kept old = rw (header_size-kept old)

  pub received-eq :
      (old : Mem) (i : ℕ) → i < l.header_size + get_body_size l m → received old i ≡ m i
  received-eq old i lt = elim (Bool-cases (ltb i l.header_size)) [
    | inl head ↦
        write-outside l.header_size body_of _ i (ground arith)
        ∙ write-read 0 l.header_size m old i (omega arith) (ground arith)
    | inr body ↦ write-read l.header_size (get_body_size l m) m _ i (ground arith) lt
  ]

module _ {B : Type 0} (l : Layout) (on_read_body : Mem → Bool) (m : Mem) (w : World B) where
  abbrev old : Mem
  old = w.channel.read_buf

  abbrev with_header : World B
  with_header = record w {
    channel = record w.channel { read_buf = write 0 (header_of l m) old };
    reading = of_body (get_body_size l (write 0 (header_of l m) old)) ∷ [];
  }

  abbrev with_body : World B
  with_body = record w {
    channel = record w.channel { read_buf = received l m old };
    reading = [];
    frames = w.frames ++ received l m old ∷ [];
  }

  abbrev finished : World B
  finished = ask_all l (on_body (on_read_body (received l m old)) success) with_body

  header_step :
      size_valid l m ≡ true
      → l.header_size + get_body_size l m ≤ l.max_size
      → step_arrived l on_read_body w success (header_of l m) (of_header ∷ []) ≡ some with_header
  unfolding step_arrived on_header ask_all ask
  header_step valid fits =
      rw
        (
          store-eq-some l 0 (header_of l m) old (omega (arith, length-read 0 l.header_size m)),
          size_valid-kept l m old,
          valid,
        )
        refl

  body_step :
      (n : ℕ)
      → l.header_size + get_body_size l m ≤ l.max_size
      → step_arrived l on_read_body with_header success (body_of l m) (of_body n ∷ [])
        ≡ some finished
  unfolding step_arrived
  body_step n fits =
      rw
        (store-eq-some l l.header_size (body_of l m) (write 0 (header_of l m) old)
          (omega (arith, length-read l.header_size (get_body_size l m) m)))
        refl

  finished-frames : finished.frames ≡ w.frames ++ received l m old ∷ []
  unfolding ask_all ask on_body
  finished-frames = elim (Bool-cases (on_read_body (received l m old))) [
    | inl e ↦ rw e
    | inr e ↦ rw e
  ]

  finished-reading : on_read_body (received l m old) ≡ true → finished.reading ≡ of_header ∷ []
  unfolding ask_all ask on_body
  finished-reading e = rw e

  -- A frame whose size passes the test and fits the array arrives in two reads. `OnReadBody` is
  -- given an array that agrees with the sender's on the whole frame; the next header is awaited
  -- if it returns true.
  pub frame_arrives :
      w.reading ≡ of_header ∷ []
      → size_valid l m ≡ true
      → l.header_size + get_body_size l m ≤ l.max_size
      → (next : World B) × (run l on_read_body w
            (arrived success (header_of l m) ∷ arrived success (body_of l m) ∷ [])
          ≡ some next)
        × (next.frames ≡ w.frames ++ received l m old ∷ [])
        × (on_read_body (received l m old) ≡ true → next.reading ≡ of_header ∷ [])
  unfolding run step step_arrived ask_all
  frame_arrives waiting valid fits = (
    finished,
    rw (waiting, header_step valid fits, body_step _ fits),
    finished-frames,
    finished-reading,
  )
