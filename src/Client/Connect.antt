-- ===== src/Client/Connect.antt =====
-- client/gameclient.cpp and client/queueclient.cpp: `Connect` and `OnClose`, with the timer for the
-- pings. `callback` is what the user's callback gives to `Write`.
use fighting_card.Base.{ℕ, ◌+◌, ◌≡◌, ◌≢◌, refl, some, List, [], ◌∷◌, ◌++◌, Bool, ◌≤◌, length}
use fighting_card.Buffer.{user_layout}
use fighting_card.Buffer.Memory.{Mem}
use fighting_card.UserBuffer.{UserBuffer}
use fighting_card.Timer.{Item, Wait, idle, until, add, timer_loop}
use fighting_card.Timer
use fighting_card.Channel.{
  World, Event, ErrorCode, success, aborted, failed, ask, ask_all, write_all, on_connected,
}
use fighting_card.Channel
use fighting_card.Channel.Queue.{pushes, requests}
use fighting_card.Channel.Fifo.{quiet}
use fighting_card.Channel.Connected.{connected_fifo}
use fighting_card.Client.{ping_send_frequency}

-- What the timer calls.
pub data Func : Type 0 where
  send_ping : Func

pub record Connection : Type 0 where
  pub timers : List (Item Func)
  pub pipe : World UserBuffer

-- `Connect`, up to the request to asio.
unfoldable pub connect : Connection → Connection
connect c = record c { timers = add ping_send_frequency send_ping c.timers }

-- The lambda that `Connect` passes on runs the timers before the user's callback.
unfoldable pub run_timers : ErrorCode → ℕ → List (Item Func) → List (Item Func)
run_timers success now timers = Timer.run now timers
run_timers aborted now timers = timers
run_timers failed now timers = timers

-- The handler of `async_connect` at the time `now`.
unfoldable pub connected : (ErrorCode → List UserBuffer) → ErrorCode → ℕ → Connection → Connection
connected callback ec now c = record {
  timers = run_timers ec now c.timers;
  pipe = ask_all user_layout (on_connected callback ec) c.pipe;
}

-- `OnClose`.
unfoldable pub on_close : Connection → Connection
on_close c = record c { timers = Timer.stop c.timers }

abbrev pub new_connection : Mem → Connection
new_connection mem = record { timers = []; pipe = quiet mem [] }

abbrev pub ping_timer : Wait → Item Func
ping_timer wait = record { wait = wait; duration = 2; func = send_ping }

module _ (on_read_body : Mem → Bool) (callback : ErrorCode → List UserBuffer) (mem : Mem)
    (now : ℕ) where
  abbrev pub ready : Connection
  ready = connected callback success now (connect (new_connection mem))

  -- A client whose connection succeeds at the time `now` pings first two seconds later, unless it
  -- is closed; what the user's callback writes is sent before anything else, and one header is
  -- awaited.
  pub connect_sends :
      (es : List (Event UserBuffer)) (w : World UserBuffer)
      → Channel.run user_layout on_read_body ready.pipe es ≡ some w
      → (ready.timers ≡ ping_timer (until (now + 2)) ∷ [])
        × ((on_close ready).timers ≡ ping_timer idle ∷ [])
        × (w.sent ++ (w.channel.write_bufs ++ pushes w.posted) ≡ callback success ++ requests es)
        × (length w.reading ≤ 1)
  unfolding connect connected run_timers Timer.run Timer.add timer_loop on_close Timer.stop
  connect_sends es w ran =
      let fifo = connected_fifo user_layout on_read_body callback mem es w ran in
      (refl, refl, fifo.0, fifo.2)

  -- After a connection that fails no timer runs and nothing is read.
  pub connect_fails :
      (ec : ErrorCode)
      → ec ≢ success
      → callback ec ≡ []
      → connected callback ec now (connect (new_connection mem))
        ≡ record { timers = ping_timer idle ∷ []; pipe = quiet mem [] }
  unfolding connect connected run_timers Timer.add on_connected ask_all write_all
  connect_fails success failure silent = absurd (failure refl)
  connect_fails aborted failure silent = rw silent refl
  connect_fails failed failure silent = rw silent refl
