-- ===== src/Dispatch/Heads.antt =====
-- The heads of the frames that the constructors without ids make.
use fighting_card.Base.{ℕ, ◌*◌, ◌^◌, ◌≡◌, ◌≤◌, ◌<◌, true, some, List, [], arith, length}
use fighting_card.Message.{Message, IsWire}
use fighting_card.PipeBuffer
use fighting_card.PipeBuffer.{PipeBuffer}
use fighting_card.PipeBuffer.Overloads.{of_message, of_session, encode_message, encode_session}
use fighting_card.Dispatch.{pipe_head}
use fighting_card.Dispatch.Handled.{pipe_head-encode}

module _ (msg : Message) (payload : List ℕ) (w : IsWire msg payload)
    (long : 1 ≤ length msg.type_name) (short : length msg.type_name < 255)
    (fits : length payload ≤ 500 * 1024) where
  -- A frame for a session is decoded to a head with the session and without ids, one without a
  -- session to a head with the session 0.
  pub constructor_heads :
      (session_id : ℕ)
      → session_id < 2 ^ 32
      → ((sent got : PipeBuffer) × (of_session session_id msg ≡ some sent)
          × (PipeBuffer.decode sent ≡ some (got, true))
          × (pipe_head got ≡ some (record { session_id = session_id; appid = []; user_id = [] })))
        × ((sent got : PipeBuffer) × (of_message msg ≡ some sent)
            × (PipeBuffer.decode sent ≡ some (got, true))
            × (pipe_head got ≡ some (record { session_id = 0; appid = []; user_id = [] })))
  unfolding of_session of_message encode_session encode_message
  constructor_heads session_id word = (
    pipe_head-encode session_id [] [] msg payload PipeBuffer.fresh word (omega arith) (omega arith)
        tt tt long short fits w,
    pipe_head-encode 0 [] [] msg payload PipeBuffer.fresh (omega arith) (omega arith) (omega arith)
        tt tt long short fits w,
  )
