-- ===== src/Channel/Tests.antt =====
-- Two buffers written through a connection, and a login request that arrives.
use fighting_card.Base.{
  ℕ, ◌≤◌, ◌≡◌, ◌⊎◌, refl, Bool, true, some, List, [], ◌∷◌, ◌++◌, arith, length, take,
}
use fighting_card.Buffer.{user_layout, cleared}
use fighting_card.Buffer.Memory.{Mem}
use fighting_card.Message.Samples.{login, login_name, login_payload, login-IsWire}
use fighting_card.UserBuffer
use fighting_card.UserBuffer.{UserBuffer}
use fighting_card.UserBuffer.RoundTrip.{Carries}
use fighting_card.Channel.{
  World, Event, writes, task, written, arrived, success, of_header, step, run, step_task,
  step_written, run_task, on_written, write_posted, pop_and_go_on, do_write, ask, ask_all,
}
use fighting_card.Channel.Queue.{pushes, requests}
use fighting_card.Channel.Fifo.{quiet, run_fifo, run_drained, run_queue_total}
use fighting_card.Channel.OneRead.{run-reading-le}
use fighting_card.Channel.Reads.{header_of, body_of}
use fighting_card.Channel.Delivery.{message_arrives}

abbrev accept_all : Mem → Bool
accept_all m = true

abbrev start : World ℕ
start = quiet (cleared user_layout) (of_header ∷ [])

abbrev history : List (Event ℕ)
history = writes 1 ∷ task ∷ writes 2 ∷ task ∷ written success ∷ written success ∷ []

abbrev drained : World ℕ
drained = record start { sent = 1 ∷ 2 ∷ [] }

history_runs : run user_layout accept_all start history ≡ some drained
unfolding run step step_task step_written run_task on_written write_posted pop_and_go_on do_write
    ask ask_all
history_runs = refl

run_fifo_example :
    (drained.sent ++ (drained.channel.write_bufs ++ pushes drained.posted) ≡ requests history)
    × ((drained.writing ≡ take 1 drained.channel.write_bufs) ⊎ (drained.writing ≡ []))
run_fifo_example =
    run_fifo user_layout accept_all (cleared user_layout) (of_header ∷ []) history drained
      history_runs

run_drained_example : drained.sent ≡ requests history
run_drained_example =
    run_drained user_layout accept_all (cleared user_layout) (of_header ∷ []) history drained
      history_runs (omega arith) refl refl

run_queue_total_example :
    (next : World ℕ) × (step user_layout accept_all drained (writes 3) ≡ some next)
run_queue_total_example =
    run_queue_total user_layout accept_all (cleared user_layout) (of_header ∷ []) history drained
      history_runs (writes 3) tt

run-reading-le_example : length drained.reading ≤ length start.reading
run-reading-le_example = run-reading-le user_layout accept_all history start drained history_runs

message_arrives_example :
    (sent got : UserBuffer) × (next : World ℕ) × (frame : Mem) × (UserBuffer.encode login
        UserBuffer.fresh
      ≡ some sent)
    × (run user_layout accept_all start (
          arrived success (header_of user_layout sent.mem)
          ∷ arrived success (body_of user_layout sent.mem)
          ∷ [])
        ≡ some next)
    × (next.frames ≡ frame ∷ [])
    × (UserBuffer.decode (record UserBuffer.fresh { mem = frame }) ≡ some (got, true))
    × Carries got login_name login_payload
message_arrives_example =
    message_arrives accept_all login login_payload UserBuffer.fresh start UserBuffer.fresh
      login-IsWire (omega arith) (omega arith) (omega arith) refl
