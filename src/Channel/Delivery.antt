-- ===== src/Channel/Delivery.antt =====
-- A message from one end of a connection to the other: `UserBuffer::Encode`, the bytes on the
-- wire, the two reads, and `UserBuffer::Decode` on the other side.
use fighting_card.Base.{
  ℕ, ◌+◌, ◌≤◌, ◌<◌, ◌≡◌, ◌∙◌, ap, Bool, true, some, List, [], ◌∷◌, ◌++◌, arith, length,
}
use fighting_card.Base.Text.{Text}
use fighting_card.Buffer.{user_layout, get_body_size, size_valid}
use fighting_card.Buffer.Memory.{Mem, read-shift}
use fighting_card.Buffer.Words.{of_le}
use fighting_card.Message.{Message, IsWire}
use fighting_card.Message.Tail.{IsTail-shift}
use fighting_card.UserBuffer.{UserBuffer, encode, decode}
use fighting_card.UserBuffer.Frame.{
  IsFrame, encoded, encode_lem, encoded-IsFrame, decoded, decode_frame,
}
use fighting_card.UserBuffer.RoundTrip.{Carries, decoded-Carries}
use fighting_card.Channel.{World, arrived, success, of_header, run}
use fighting_card.Channel.Reads.{header_of, body_of, received, received-eq, frame_arrives}

-- An array that agrees with a frame on its bytes holds that frame.
IsFrame-agree :
    (name : Text) (payload : List ℕ) (m m' : Mem)
    → ((i : ℕ) → i < length name + length payload + 8 → m' i ≡ m i)
    → IsFrame m name payload
    → IsFrame m' name payload
unfolding get_body_size
IsFrame-agree name payload m m' same f = record {
  sized = ap of_le (read-shift 0 0 2 m m' (λ j lt. same (0 + j) (omega arith))) ∙ f.sized;
  tail = IsTail-shift 2 2 name payload m m' (λ j lt. same (2 + j) (omega arith)) f.tail;
}

frame-size_valid :
    (name : Text) (payload : List ℕ) (m : Mem)
    → length name + length payload ≤ 16376
    → IsFrame m name payload
    → size_valid user_layout m ≡ true
unfolding size_valid
frame-size_valid name payload m fits f = rw f.sized (ground arith)

module _ {B : Type 0} (on_read_body : Mem → Bool) (msg : Message) (payload : List ℕ)
    (b : UserBuffer) (w : World B) (r : UserBuffer) where
  -- What `message_arrives` says, and the next header is awaited if `OnReadBody` returns true.
  pub message_received :
      IsWire msg payload
      → 1 ≤ length msg.type_name
      → length msg.type_name < 255
      → length msg.type_name + length payload ≤ 16376
      → w.reading ≡ of_header ∷ []
      → (sent got : UserBuffer) × (next : World B) × (frame : Mem) × (encode msg b ≡ some sent)
        × (run user_layout on_read_body w (
              arrived success (header_of user_layout sent.mem)
              ∷ arrived success (body_of user_layout sent.mem)
              ∷ [])
            ≡ some next)
        × (next.frames ≡ w.frames ++ frame ∷ [])
        × (decode (record r { mem = frame }) ≡ some (got, true))
        × Carries got msg.type_name payload
        × (on_read_body frame ≡ true → next.reading ≡ of_header ∷ [])
  message_received wire long short fits waiting = (
    sent,
    decoded name payload into arrived_frame fits' long,
    steps.0,
    frame,
    encode_lem msg payload b wire short fits',
    steps.1,
    steps.2,
    decode_frame name payload into arrived_frame fits' long,
    decoded-Carries name payload into arrived_frame fits' long wire.named,
    steps.3,
  )
    where
      name : Text
      name = msg.type_name

      fits' : length name + length payload ≤ 16380
      fits' = omega arith

      sent : UserBuffer
      sent = encoded msg payload b wire short fits'

      sent_frame : IsFrame sent.mem name payload
      sent_frame = encoded-IsFrame msg payload b wire short fits'

      frame : Mem
      frame = received user_layout sent.mem w.channel.read_buf

      into : UserBuffer
      into = record r { mem = frame }

      arrived_frame : IsFrame frame name payload
      arrived_frame =
          IsFrame-agree name payload sent.mem frame
            (λ i lt.
              received-eq user_layout sent.mem w.channel.read_buf i
                (omega (arith, sent_frame.sized)))
            sent_frame

      steps :
          (next : World B) × (run user_layout on_read_body w (
              arrived success (header_of user_layout sent.mem)
              ∷ arrived success (body_of user_layout sent.mem)
              ∷ [])
            ≡ some next)
          × (next.frames ≡ w.frames ++ frame ∷ [])
          × (on_read_body frame ≡ true → next.reading ≡ of_header ∷ [])
      steps =
          frame_arrives user_layout on_read_body sent.mem w waiting
            (frame-size_valid name payload sent.mem fits sent_frame)
            (omega (arith, sent_frame.sized))

  -- A message is encoded, its frame is sent, and the receiver awaits a header: two reads later
  -- `OnReadBody` has been given an array in which `decode`, in whatever buffer `r`, finds the name
  -- and the bytes of the message. The name has 1 to 254 bytes, and the body fits the array.
  pub message_arrives :
      IsWire msg payload
      → 1 ≤ length msg.type_name
      → length msg.type_name < 255
      → length msg.type_name + length payload ≤ 16376
      → w.reading ≡ of_header ∷ []
      → (sent got : UserBuffer) × (next : World B) × (frame : Mem) × (encode msg b ≡ some sent)
        × (run user_layout on_read_body w (
              arrived success (header_of user_layout sent.mem)
              ∷ arrived success (body_of user_layout sent.mem)
              ∷ [])
            ≡ some next)
        × (next.frames ≡ w.frames ++ frame ∷ [])
        × (decode (record r { mem = frame }) ≡ some (got, true))
        × Carries got msg.type_name payload
  message_arrives wire long short fits waiting =
      let got = message_received wire long short fits waiting in
      (got.0, got.1, got.2, got.3, got.4, got.5, got.6, got.7, got.8)
