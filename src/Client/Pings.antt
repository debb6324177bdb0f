-- ===== src/Client/Pings.antt =====
-- The pings of a client against the `CheckAlive` of its session.
use fighting_card.Base.{
  ℕ, suc, ◌+◌, ◌-◌, ◌≡◌, ◌≤◌, refl, inl, inr, Bool, true, false, ◌&&◌, not, Option, some, List, [],
  ◌∷◌, arith, length, ltb, leb, Bool-cases, All, ◌>>=◌,
}
use fighting_card.Message.{Message}
use fighting_card.UserBuffer.{UserBuffer, of_message}
use fighting_card.Client.{Client, write, send_msg, ping_due, send_ping_msg}
use fighting_card.Server.{UserSession, check_alive}

-- The message can be put into a buffer.
abbrev pub IsSendable : Message → Type 0
IsSendable m = (b : UserBuffer) × (of_message m ≡ some b)

abbrev pub send_all : ℕ → List Message → Client → Option Client
send_all now [] c = some c
send_all now (m ∷ ms) c = do next ← send_msg now m c; send_all now ms next

module _ (ping : Message) where
  abbrev pub tick : Bool → ℕ → Client → Option Client
  tick false now c = some c
  tick true now c = send_ping_msg ping now c

  -- Seconds after `now`, each with the messages that are sent in it; the timer calls
  -- `SendPingMsg` in every second one, which `due` says of the first.
  abbrev pub seconds : Bool → ℕ → List (List Message) → Client → Option Client
  seconds due now [] c = some c
  seconds due now (ms ∷ rest) c = do
    sent ← send_all (suc now) ms c
    ticked ← tick due (suc now) sent
    seconds (not due) (suc now) rest ticked

-- The last write was at most `k` seconds before `now`.
abbrev IsRecent : ℕ → ℕ → Client → Type 0
IsRecent k now c = (c.last_write_time ≤ now) × (now ≤ c.last_write_time + k)

send-time :
    (now : ℕ) (m : Message) (c : Client)
    → IsSendable m
    → (d : Client) × (send_msg now m c ≡ some d) × (d.last_write_time ≡ now)
unfolding send_msg write
send-time now m c (b, e) = (write now b c, rw e refl, refl)

send_all-IsRecent :
    (k now : ℕ) (ms : List Message) (c : Client)
    → All IsSendable ms
    → IsRecent k now c
    → (d : Client) × (send_all now ms c ≡ some d) × IsRecent k now d
send_all-IsRecent k now [] c h r = (c, refl, r)
send_all-IsRecent k now (m ∷ ms) c h r =
    let first = send-time now m c h.0 in
    let rest =
      send_all-IsRecent k now ms first.0 h.1 (omega (arith, first.2), omega (arith, first.2)) in
    (rest.0, rw (first.1, rest.1) refl, rest.2)

module _ (ping : Message) (sendable : IsSendable ping) where
  ping-IsRecent :
      (k now : ℕ) (c : Client)
      → IsRecent k now c
      → (d : Client) × (send_ping_msg ping now c ≡ some d) × IsRecent 1 now d
  unfolding send_ping_msg ping_due
  ping-IsRecent k now c r =
      let sent = send-time now ping c sendable in
      elim (Bool-cases (ltb c.last_write_time now && leb 2 (now - c.last_write_time))) [
        | inl e ↦ (sent.0, rw (e, sent.1) refl, (omega (arith, sent.2), omega (arith, sent.2)))
        | inr e ↦ (c, rw e refl, (r.0, ground (arith, r.0, r.1)))
      ]

  abbrev slack : Bool → ℕ
  slack true = 2
  slack false = 1

  seconds-IsRecent :
      (due : Bool) (now : ℕ) (mss : List (List Message)) (c : Client)
      → All (All IsSendable) mss
      → IsRecent (slack due) now c
      → (d : Client) × (seconds ping due now mss c ≡ some d) × IsRecent 2 (now + length mss) d
  seconds-IsRecent true now [] c h r = (c, refl, (omega (arith, r.0), omega (arith, r.1)))
  seconds-IsRecent false now [] c h r = (c, refl, (omega (arith, r.0), omega (arith, r.1)))
  seconds-IsRecent false now (ms ∷ mss) c h r =
      let sent = send_all-IsRecent 2 (suc now) ms c h.0 (omega (arith, r.0), omega (arith, r.1)) in
      let rest = seconds-IsRecent true (suc now) mss sent.0 h.1 sent.2 in
      (rest.0, rw (sent.1, rest.1) refl, (omega (arith, rest.2.0), omega (arith, rest.2.1)))
  seconds-IsRecent true now (ms ∷ mss) c h r =
      let sent = send_all-IsRecent 3 (suc now) ms c h.0 (omega (arith, r.0), omega (arith, r.1)) in
      let ticked = ping-IsRecent 3 (suc now) sent.0 sent.2 in
      let rest = seconds-IsRecent false (suc now) mss ticked.0 h.1 ticked.2 in
      (
        rest.0,
        rw (sent.1, ticked.1, rest.1) refl,
        (omega (arith, rest.2.0), omega (arith, rest.2.1)),
      )

  -- A client that has written at the time `start`, and whose timer runs from then on, is alive
  -- for the server ever after: whatever it sends, and if it sends nothing, a session that has
  -- got the client's last message when it was written passes `CheckAlive`, also if up to two more
  -- seconds go by.
  pub pings_keep_alive :
      (start delay : ℕ) (mss : List (List Message)) (c : Client) (u : UserSession)
      → c.last_write_time ≡ start
      → All (All IsSendable) mss
      → delay ≤ 2
      → (d : Client) × (seconds ping false start mss c ≡ some d)
        × (check_alive
              (start + length mss + delay)
              (record u { last_alive_time = d.last_write_time })
            ≡ false)
  unfolding check_alive
  pings_keep_alive start delay mss c u written h short =
      let last =
        seconds-IsRecent false start mss c h (omega (arith, written), omega (arith, written)) in
      (last.0, last.1, ground (arith, last.2.1, short))
