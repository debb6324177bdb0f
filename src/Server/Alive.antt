-- ===== src/Server/Alive.antt =====
-- `CheckAlive`, which the timer of a session calls every `CHECK_ALIVE_TIME` seconds.
use fighting_card.Base.{ℕ, ◌+◌, ◌*◌, ◌/◌, ◌-◌, ◌≡◌, ◌≤◌, ◌<◌, true, false, arith}
use fighting_card.Server.{UserSession, check_alive_time, check_alive}

-- A session whose last message came at a time not before the timer began is closed by exactly
-- one of the first calls, the first that comes 5 seconds or more after the message: less than 10
-- seconds after it.
pub silent_closed :
    (start : ℕ) (u : UserSession)
    → start ≤ u.last_alive_time
    → (k : ℕ) × (check_alive (start + k * check_alive_time) u ≡ true)
      × (u.last_alive_time + 5 ≤ start + k * check_alive_time)
      × (start + k * check_alive_time < u.last_alive_time + 10)
      × ((j : ℕ) → j < k → check_alive (start + j * check_alive_time) u ≡ false)
unfolding check_alive
silent_closed start u h =
    (k, ground (arith, h), omega (arith, h), omega (arith, h), λ j lt. ground (arith, h, lt))
  where
    k : ℕ
    k = (u.last_alive_time - start + 4) / 5 + 1
