-- ===== src/UserBuffer/Tests.antt =====
-- A login request through a user buffer, and a frame that is shorter than it says.
use fighting_card.Base.{◌+◌, ◌^◌, ◌≡◌, ◌↔◌, Bool, true, some, [], ◌∷◌, arith}
use fighting_card.Buffer.{cleared, get_body_size, user_layout}
use fighting_card.Buffer.Memory.{write, read, IsBytes, Mem}
use fighting_card.Buffer.Words.{of_le}
use fighting_card.Message.Samples.{login, login_name, login_payload, login-IsWire}
use fighting_card.UserBuffer.{UserBuffer, fresh, encode, decode}
use fighting_card.UserBuffer.RoundTrip.{Carries, decode-encode}
use fighting_card.UserBuffer.Total.{Accepts, decode_total, decode_size_wraps}

decode-encode_example :
    (sent got : UserBuffer) × (encode login fresh ≡ some sent)
    × (decode sent ≡ some (got, true))
    × Carries got login_name login_payload
decode-encode_example =
    decode-encode login login_payload fresh login-IsWire (omega arith) (omega arith) (omega arith)

-- A body of one byte that claims a name of two.
abbrev short_mem : Mem
short_mem = write 0 (1 ∷ 0 ∷ 2 ∷ 65 ∷ 0 ∷ []) (cleared user_layout)

abbrev short_frame : UserBuffer
short_frame = record fresh { mem = short_mem }

short_mem-IsBytes : IsBytes short_mem
unfolding write cleared
short_mem-IsBytes i = ground arith

decode_total_example :
    (got : UserBuffer) × (ok : Bool) × (decode short_frame ≡ some (got, ok))
    × ((ok ≡ true) ↔ Accepts short_frame)
    × (got.mem ≡ short_frame.mem)
decode_total_example = decode_total short_frame short_mem-IsBytes

decode_size_wraps_example :
    (got : UserBuffer) × (decode short_frame ≡ some (got, true))
    × (got.msg_data_size + (short_mem 2 + 5) ≡ 2 ^ 64 + get_body_size user_layout short_mem)
unfolding write cleared get_body_size read of_le
decode_size_wraps_example =
    decode_size_wraps short_frame short_mem-IsBytes (omega arith) (omega arith)
