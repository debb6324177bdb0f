-- ===== src/ClientMain/Range.antt =====
-- The loop over the users, from `uid_from` to `uid_to`.
use fighting_card.Base.{
  ℕ, zero, suc, ◌+◌, ◌*◌, ◌-◌, ◌%◌, ◌^◌, ◌≡◌, ◌≤◌, ◌<◌, ◌∙◌, refl, Bool, true, List, [], ◌∷◌, ◌++◌,
  arith, append_assoc, append-nil, le→leb,
}
use fighting_card.Base.Int.{place, at_place, place-at_place, increment-at_place}
use fighting_card.Config.{UsersInfo}
use fighting_card.IoServicePool.{Pool}
use fighting_card.IoServicePool.Turns.{at_turn, get_io_service-next}
use fighting_card.ClientMain.{Started, new_user, Loop, add_user, start_user, turn, run_loop}

module _ (info : UsersInfo) (size : ℕ) where
  -- The user at the place `k` of the range, when `taken` services have been given out.
  abbrev pub started : ℕ → ℕ → Started
  started k taken = record {
    user = new_user info (at_place k);
    processor_service = taken % size;
    gameclient_service = suc taken % size;
  }

  -- `n` users from the place `k` on.
  abbrev pub users_from : ℕ → ℕ → ℕ → List Started
  users_from k taken zero = []
  users_from k taken (suc n) = started k taken ∷ users_from (suc k) (suc (suc taken)) n

module _ (resolves : ℕ → Bool) (info : UsersInfo) (pool : Pool) where
  abbrev pub loop_at : ℕ → ℕ → List Started → Loop
  loop_at k taken users = record { uid = at_place k; pool = at_turn taken pool; users = users }

  -- The user is started at its turn, and the loop goes on as `++uid` does.
  pub turn_at :
      (k taken : ℕ) (users : List Started)
      → 0 < pool.io_services
      → suc (suc taken) < 2 ^ 64
      → k ≤ place info.uid_to
      → k < 2 ^ 32
      → resolves (at_place k) ≡ true
      → turn resolves info (loop_at k taken users)
        ≡ add_user
            (started info pool.io_services k taken)
            (at_turn (suc (suc taken)) pool)
            (loop_at k taken users)
  unfolding turn start_user
  turn_at k taken users some_service few inside fits resolved =
      rw
        (
          le→leb (place (at_place k)) (place info.uid_to)
              (omega (arith, inside, place-at_place k fits)),
          get_io_service-next taken pool some_service (omega (arith, few)),
          get_io_service-next (suc taken) pool some_service few,
          resolved,
        )
        refl

  -- Turns whose users can all be connected, one after the other.
  pub turns_from :
      (n k taken fuel : ℕ) (users : List Started)
      → 0 < pool.io_services
      → taken + 2 * n < 2 ^ 64
      → n ≤ suc (place info.uid_to) - k
      → k + n < 2 ^ 32
      → ((j : ℕ) → k ≤ j → j < k + n → resolves (at_place j) ≡ true)
      → run_loop resolves info (n + fuel) (loop_at k taken users)
        ≡ run_loop resolves info fuel
            (loop_at (k + n) (taken + 2 * n) (users ++ users_from info pool.io_services k taken n))
  turns_from zero k taken fuel users some_service few inside fits resolved =
      rw (append-nil users, at_end, none_taken, none_left) refl
    where
      at_end : k + 0 ≡ k
      at_end = omega arith

      none_taken : taken + 2 * 0 ≡ taken
      none_taken = omega arith

      none_left : 0 + fuel ≡ fuel
      none_left = omega arith
  turns_from (suc n) k taken fuel users some_service few inside fits resolved =
      rw (more_fuel, ← moved, ← two_taken, ← one_more)
        (first
          ∙ turns_from n (suc k) (suc (suc taken)) fuel
              (users ++ started info pool.io_services k taken ∷ []) some_service
              (omega (arith, few)) (omega (arith, inside)) (omega (arith, fits))
              (λ j low high. resolved j (omega (arith, low)) (omega (arith, high))))
    where
      more_fuel : suc n + fuel ≡ suc (n + fuel)
      more_fuel = omega arith

      moved : suc k + n ≡ k + suc n
      moved = omega arith

      two_taken : suc (suc taken) + 2 * n ≡ taken + 2 * suc n
      two_taken = omega arith

      one_more :
          (users ++ started info pool.io_services k taken ∷ [])
            ++ users_from info pool.io_services (suc k) (suc (suc taken)) n
          ≡ users ++ users_from info pool.io_services k taken (suc n)
      one_more =
          append_assoc users (started info pool.io_services k taken ∷ [])
            (users_from info pool.io_services (suc k) (suc (suc taken)) n)

      first :
          run_loop resolves info (suc (n + fuel)) (loop_at k taken users)
          ≡ run_loop resolves info (n + fuel) (
              loop_at
                (suc k)
                (suc (suc taken))
                (users ++ started info pool.io_services k taken ∷ []))
      first =
          unfold run_loop add_user in
          rw
            (
              turn_at k taken users some_service (omega (arith, few)) (omega (arith, inside))
                  (omega (arith, fits)) (resolved k (omega arith) (omega arith)),
              increment-at_place k (omega (arith, fits)),
            )
            refl
