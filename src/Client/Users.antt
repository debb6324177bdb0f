-- ===== src/Client/Users.antt =====
-- The login of a user, and what it does with the response.
use fighting_card.Base.{
  ℕ, ◌≡◌, ◌≢◌, ◌↔◌, ◌∙◌, refl, true, false, Option, none, some, [], ◌∷◌, ◌++◌, arith,
}
use fighting_card.Message.{Message}
use fighting_card.UserBuffer.{UserBuffer, of_message}
use fighting_card.Server.{LoginRes, login_success, login_queue, login_error, login_logined, lock}
use fighting_card.Client.{
  write, send_msg, User, Clients, set_client, send_locked, send_game_msg, close_game,
  close_game_client, on_connected, login_rsp,
}

close_game-none : (w : Clients) (o : Option ℕ) → (close_game w o ≡ none) ↔ (o ≡ none)
unfolding close_game
close_game-none w none = (λ e. refl, λ e. refl)
close_game-none w (some p) = (λ e. absurd (cc e), λ e. absurd (cc e))

rsp-closes :
    (u : User) (w : Clients) (result : LoginRes)
    → result ≢ login_success
    → login_rsp result u w ≡ close_game_client u w
unfolding login_rsp
rsp-closes u w login_success h = absurd (h refl)
rsp-closes u w login_error h = refl
rsp-closes u w login_queue h = refl
rsp-closes u w login_logined h = refl

module _ (u : User) (w : Clients) where
  gone : (close_game_client u w ≡ none) ↔ (lock w.exists u.gameclient ≡ none)
  unfolding close_game_client
  gone = close_game-none w (lock w.exists u.gameclient)

  -- The handler of the login response faults exactly if the login did not succeed and the client
  -- is gone.
  pub login_rsp_fault :
      (result : LoginRes)
      → (login_rsp result u w ≡ none)
        ↔ ((result ≢ login_success) × (lock w.exists u.gameclient ≡ none))
  unfolding login_rsp close_game_client close_game
  login_rsp_fault login_success = (λ e. cc e, λ h. absurd (h.0 refl))
  login_rsp_fault login_error = (λ e. (λ same. cc same, gone.0 e), λ h. gone.1 h.1)
  login_rsp_fault login_queue = (λ e. (λ same. cc same, gone.0 e), λ h. gone.1 h.1)
  login_rsp_fault login_logined = (λ e. (λ same. cc same, gone.0 e), λ h. gone.1 h.1)

  -- When the connection is there, the login request is the next buffer that the client writes, no
  -- other client is changed, and a response other than success closes this client.
  pub on_connected-login :
      (now p : ℕ) (login_req : Message) (buf : UserBuffer) (result : LoginRes)
      → of_message login_req ≡ some buf
      → w.exists p ≡ true
      → result ≢ login_success
      → (v : User) × (after closed : Clients) × (on_connected false now p login_req u w
          ≡ some (v, after))
        × (after.client p ≡ write now buf (w.client p))
        × ((q : ℕ) → p ≢ q → after.client q ≡ w.client q)
        × (login_rsp result v after ≡ some closed)
        × (closed.closed ≡ w.closed ++ p ∷ [])
  unfolding on_connected send_game_msg send_locked send_msg
  on_connected-login now p login_req buf result e alive unsuccessful = (
    connected,
    sent,
    record sent { closed = w.closed ++ p ∷ [] },
    rw (alive, e) refl,
    ground arith,
    λ q ne. ground (arith, ne),
    rsp-closes connected sent result unsuccessful ∙ closes_it,
    refl,
  )
    where
      connected : User
      connected = record u { gameclient = some p }

      sent : Clients
      sent = set_client p w (write now buf (w.client p))

      closes_it :
          close_game_client connected sent ≡ some (record sent { closed = w.closed ++ p ∷ [] })
      closes_it = unfold close_game_client in unfold close_game in rw alive
