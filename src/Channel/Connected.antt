-- ===== src/Channel/Connected.antt =====
-- A pipe from its connection on.
use fighting_card.Base.{
  Bool, some, List, [], ◌∷◌, ◌++◌, ◌≡◌, ◌⊎◌, ◌∙◌, refl, sym, ap, take, length, ◌≤◌,
}
use fighting_card.Buffer.{Layout}
use fighting_card.Buffer.Memory.{Mem}
use fighting_card.Channel.{
  World, Event, writes, read_header, push, ErrorCode, success, of_header, ask, ask_all, step, run,
  write_all, on_connected,
}
use fighting_card.Channel.Queue.{pushes, requests}
use fighting_card.Channel.Fifo.{quiet, run_fifo}
use fighting_card.Channel.OneRead.{run-reading-le}

module _ {B : Type 0} (l : Layout) (on_read_body : Mem → Bool) where
  -- The calls of `Write` as events.
  abbrev all_written : List B → List (Event B)
  all_written [] = []
  all_written (b ∷ bs) = writes b ∷ all_written bs

  requests-all_written :
      (bs : List B) (es : List (Event B)) → requests (all_written bs ++ es) ≡ bs ++ requests es
  requests-all_written [] es = refl
  requests-all_written (b ∷ bs) es = ap (◌∷◌ b) (requests-all_written bs es)

  abbrev reading_header : World B → World B
  reading_header w = record w { reading = w.reading ++ of_header ∷ [] }

  -- What the callback writes, and the read that follows it.
  written_first :
      (bs : List B) (w : World B) (es : List (Event B))
      → run l on_read_body (ask_all l (write_all bs ++ read_header ∷ []) w) es
        ≡ run l on_read_body (reading_header w) (all_written bs ++ es)
  unfolding run step ask_all ask write_all
  written_first [] w es = refl
  written_first (b ∷ bs) w es = written_first bs (record w { posted = w.posted ++ push b ∷ [] }) es

  module _ (callback : ErrorCode → List B) (mem : Mem) where
    -- A pipe whose connection has succeeded.
    abbrev pub connected : World B
    connected = ask_all l (on_connected callback success) (quiet mem [])

    from_quiet :
        (es : List (Event B))
        → run l on_read_body connected es
          ≡ run l on_read_body (quiet mem (of_header ∷ [])) (all_written (callback success) ++ es)
    unfolding on_connected ask_all ask
    from_quiet es = written_first (callback success) (quiet mem []) es

    -- After the connection of a pipe has succeeded, what the callback wrote is sent first and what
    -- `Write` is called with later follows in order; there is never more than one read under way.
    pub connected_fifo :
        (es : List (Event B)) (w : World B)
        → run l on_read_body connected es ≡ some w
        → (w.sent ++ (w.channel.write_bufs ++ pushes w.posted) ≡ callback success ++ requests es)
          × ((w.writing ≡ take 1 w.channel.write_bufs) ⊎ (w.writing ≡ []))
          × (length w.reading ≤ 1)
    connected_fifo es w ran =
        let history = all_written (callback success) ++ es in
        let ran' : run l on_read_body (quiet mem (of_header ∷ [])) history ≡ some w =
          sym (from_quiet es) ∙ ran in
        let fifo = run_fifo l on_read_body mem (of_header ∷ []) history w ran' in
        (
          fifo.0 ∙ requests-all_written (callback success) es,
          fifo.1,
          run-reading-le l on_read_body history (quiet mem (of_header ∷ [])) w ran',
        )
