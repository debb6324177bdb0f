-- ===== src/Channel.antt =====
-- common/session.h and common/pipe.h: the two ends of a connection, which read frames and write
-- queued buffers through asio in the same text. A handler returns the new state and what it asks
-- of asio and of the subclass; `World` holds what asio has been asked and has not yet done.
pub mod Queue
pub mod Order
pub mod Fifo
pub mod OneRead
pub mod Reads
pub mod Delivery
pub mod Connected
pub mod Tests
use fighting_card.Base.{
  ℕ, Bool, true, false, Option, none, some, List, [], ◌∷◌, ◌++◌, if◌then◌else◌, ◌>>=◌,
}
use fighting_card.Buffer.{Layout, store, get_body_size, size_valid}
use fighting_card.Buffer.Memory.{Mem}

-- `asio::error_code`: none, `operation_aborted`, or another.
pub data ErrorCode : Type 0 where
  success aborted failed : ErrorCode

-- What `Write` and `Close` post to the `io_service`.
pub data Task (B : Type 0) : Type 0 where
  push : B → Task B
  shut : Task B

pub data Effect (B : Type 0) : Type 0 where
  read_header read_body : Effect B
  async_write : B → Effect B
  post : Task B → Effect B
  config_socket close_socket on_close on_closed : Effect B

-- `write_bufs_` points to buffers that nobody changes after `Write`, so it holds their contents.
pub record Channel (B : Type 0) : Type 0 where
  pub read_buf : Mem
  pub write_bufs : List B

module _ {B : Type 0} where
  -- `Write`.
  abbrev pub write : B → List (Effect B)
  write b = post (push b) ∷ []

  -- `Close`, which the four error functions call.
  abbrev pub close : List (Effect B)
  close = on_close ∷ post shut ∷ []

  -- `DoWrite`; `front()` of an empty deque is a fault.
  unfoldable pub do_write : List B → Option (List (Effect B))
  do_write [] = none
  do_write (b ∷ bs) = some (async_write b ∷ [])

  -- `write_in_progress` is read before the push.
  unfoldable pub write_posted : List B → B → Option (List B × List (Effect B))
  write_posted [] b = do asked ← do_write (b ∷ []); some (b ∷ [], asked)
  write_posted (front ∷ rest) b = some (front ∷ (rest ++ b ∷ []), [])

  unfoldable pub run_task : Channel B → Task B → Option (Channel B × List (Effect B))
  run_task c (push b) = do
    (bufs, asked) ← write_posted c.write_bufs b
    some (record c { write_bufs = bufs }, asked)
  run_task c shut = some (c, close_socket ∷ on_closed ∷ [])

  -- `pop_front()`, and the next write if a buffer is left.
  unfoldable pub pop_and_go_on : List B → Option (List B × List (Effect B))
  pop_and_go_on [] = none
  pop_and_go_on (front ∷ []) = some ([], [])
  pop_and_go_on (front ∷ next ∷ rest) = do asked ← do_write (next ∷ rest); some (next ∷ rest, asked)

  -- The handler of `async_write`.
  unfoldable pub on_written : Channel B → ErrorCode → Option (Channel B × List (Effect B))
  on_written c success = do
    (bufs, asked) ← pop_and_go_on c.write_bufs
    some (record c { write_bufs = bufs }, asked)
  on_written c aborted = some (c, [])
  on_written c failed = some (c, close)

  -- The handler of the read of a header; `OnReadHeader` is `SizeValid`.
  unfoldable pub on_header : Layout → Channel B → ErrorCode → List (Effect B)
  on_header l c success = if size_valid l c.read_buf then read_body ∷ [] else close
  on_header l c aborted = []
  on_header l c failed = close

  -- The handler of the read of a body, given the result of `OnReadBody`.
  unfoldable pub on_body : Bool → ErrorCode → List (Effect B)
  on_body accepted success = if accepted then read_header ∷ [] else close
  on_body accepted aborted = []
  on_body accepted failed = close

  -- The buffers that a callback writes.
  unfoldable pub write_all : List B → List (Effect B)
  write_all [] = []
  write_all (b ∷ bs) = write b ++ write_all bs

  -- The handler of `async_connect`, of a pipe; the callback gives `Write` some buffers.
  unfoldable pub on_connected : (ErrorCode → List B) → ErrorCode → List (Effect B)
  on_connected callback success = config_socket ∷ (write_all (callback success) ++ read_header ∷ [])
  on_connected callback aborted = write_all (callback aborted)
  on_connected callback failed = write_all (callback failed)

-- A read under way: of the header, or of a body of the size that the header gave when it began.
pub data Reading : Type 0 where
  of_header : Reading
  of_body : ℕ → Reading

-- A channel with the requests that asio has not completed, the buffers that were sent, and the
-- frames that `OnReadBody` was given.
pub record World (B : Type 0) : Type 0 where
  pub channel : Channel B
  pub posted : List (Task B)
  pub writing : List B
  pub reading : List Reading
  pub sent : List B
  pub frames : List Mem
  pub closed : Bool

module _ {B : Type 0} (l : Layout) where
  unfoldable pub ask : Effect B → World B → World B
  ask read_header w = record w { reading = w.reading ++ of_header ∷ [] }
  ask read_body w = record w {
    reading = w.reading ++ of_body (get_body_size l w.channel.read_buf) ∷ [];
  }
  ask (async_write b) w = record w { writing = w.writing ++ b ∷ [] }
  ask (post t) w = record w { posted = w.posted ++ t ∷ [] }
  ask close_socket w = record w { closed = true }
  ask on_close w = w
  ask on_closed w = w
  ask config_socket w = w

  unfoldable pub ask_all : List (Effect B) → World B → World B
  ask_all [] w = w
  ask_all (e ∷ es) w = ask_all es (ask e w)

-- What may happen next: a call of `Write` or `Close`, the head of the posted tasks runs, or asio
-- completes a write, or a read with the bytes that came.
pub data Event (B : Type 0) : Type 0 where
  writes : B → Event B
  closes task : Event B
  written : ErrorCode → Event B
  arrived : ErrorCode → List ℕ → Event B

module _ {B : Type 0} (l : Layout) (on_read_body : Mem → Bool) where
  unfoldable pub step_task : World B → List (Task B) → Option (World B)
  step_task w [] = some w
  step_task w (t ∷ ts) = do
    (c, asked) ← run_task w.channel t
    some (ask_all l asked (record w { channel = c; posted = ts }))

  -- A completed write has sent the buffer it was given.
  unfoldable pub step_written : World B → ErrorCode → List B → Option (World B)
  step_written w ec [] = some w
  step_written w success (b ∷ bs) = do
    (c, asked) ← on_written w.channel success
    some (ask_all l asked (record w { channel = c; writing = bs; sent = w.sent ++ b ∷ [] }))
  step_written w aborted (b ∷ bs) = do
    (c, asked) ← on_written w.channel aborted
    some (ask_all l asked (record w { channel = c; writing = bs }))
  step_written w failed (b ∷ bs) = do
    (c, asked) ← on_written w.channel failed
    some (ask_all l asked (record w { channel = c; writing = bs }))

  -- The bytes are in the array before the handler runs, whether or not all of them came.
  unfoldable pub step_arrived : World B → ErrorCode → List ℕ → List Reading → Option (World B)
  step_arrived w ec bytes [] = some w
  step_arrived w ec bytes (of_header ∷ rs) = do
    mem ← store l 0 bytes w.channel.read_buf
    let c = record w.channel { read_buf = mem }
    some (ask_all l (on_header l c ec) (record w { channel = c; reading = rs }))
  step_arrived w success bytes (of_body n ∷ rs) = do
    mem ← store l l.header_size bytes w.channel.read_buf
    let got = record w {
      channel = record w.channel { read_buf = mem };
      reading = rs;
      frames = w.frames ++ mem ∷ [];
    }
    some (ask_all l (on_body (on_read_body mem) success) got)
  step_arrived w ec bytes (of_body n ∷ rs) = do
    mem ← store l l.header_size bytes w.channel.read_buf
    let c = record w.channel { read_buf = mem }
    some (ask_all l (on_body false ec) (record w { channel = c; reading = rs }))

  unfoldable pub step : World B → Event B → Option (World B)
  step w (writes b) = some (ask_all l (write b) w)
  step w closes = some (ask_all l close w)
  step w task = step_task w w.posted
  step w (written ec) = step_written w ec w.writing
  step w (arrived ec bytes) = step_arrived w ec bytes w.reading

  unfoldable pub run : World B → List (Event B) → Option (World B)
  run w [] = some w
  run w (e ∷ es) = do next ← step w e; run next es
