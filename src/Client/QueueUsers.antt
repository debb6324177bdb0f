-- ===== src/Client/QueueUsers.antt =====
-- A user whose connection to the queue server has failed.
use fighting_card.Base.{ℕ, ◌≡◌, refl, true, Option, none, some, arith}
use fighting_card.Message.{Message}
use fighting_card.UserBuffer.{UserBuffer, of_message}
use fighting_card.Client.{
  User, Clients, set_client, write, send_msg, send_locked, send_queue_msg, send_game_msg,
  connect_queue, on_queue_connected, on_connected,
}

module _ (u : User) (w : Clients) (now p : ℕ) (msg : Message) (buf : UserBuffer)
    (callback : User → Clients → Option Clients) where
  -- `ConnectQueue` sets the client before it is connected: if the connection fails and the client
  -- still exists, `SendQueueMsg` writes to the client that is not connected, while `SendGameMsg`
  -- after a game connection that fails writes to no client.
  pub failed_queue_written :
      of_message msg ≡ some buf
      → w.exists p ≡ true
      → u.gameclient ≡ none
      → (v : User) × (after : Clients) × (on_queue_connected true p callback (connect_queue p u) w
          ≡ some (v, w))
        × (send_queue_msg now msg v w ≡ some after)
        × (after.client p ≡ write now buf (w.client p))
        × (on_connected true now p msg u w ≡ some (u, w))
        × (send_game_msg now msg u w ≡ some w)
  unfolding on_queue_connected connect_queue send_queue_msg send_game_msg send_locked send_msg
      on_connected
  failed_queue_written sendable there no_game = (
    record u { queueclient = some p },
    set_client p w (write now buf (w.client p)),
    refl,
    rw (there, sendable) refl,
    ground arith,
    refl,
    rw no_game refl,
  )
