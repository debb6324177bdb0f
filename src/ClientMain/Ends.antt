-- ===== src/ClientMain/Ends.antt =====
-- How the loop over the users ends: behind the last user, at an address that cannot be resolved, or
-- with an overflow of `++uid`.
use fighting_card.Base.{
  ℕ, zero, suc, ◌+◌, ◌*◌, ◌-◌, ◌^◌, ◌≡◌, ◌≤◌, ◌<◌, ◌∙◌, refl, sym, ap, Bool, true, false, none,
  some, [], arith, le→leb, lt→leb-false,
}
use fighting_card.Base.Int.{place, at_place, int_max, place-at_place, at_place-place, increment}
use fighting_card.Config.{UsersInfo}
use fighting_card.IoServicePool.{Pool}
use fighting_card.IoServicePool.Turns.{at_turn, get_io_service-next}
use fighting_card.ClientMain.{Loop, ends, throws, add_user, start_user, turn, run_loop}
use fighting_card.ClientMain.Range.{users_from, loop_at, turn_at, turns_from}

-- How many values there are from `uid_from` to `uid_to`.
abbrev pub count : UsersInfo → ℕ
count info = suc (place info.uid_to) - place info.uid_from

module _ (resolves : ℕ → Bool) (info : UsersInfo) (pool : Pool) where
  abbrev pub loop_start : Loop
  loop_start = record { uid = info.uid_from; pool = at_turn 0 pool; users = [] }

  abbrev pub after_turns : ℕ → Loop
  after_turns n =
      loop_at resolves info pool (place info.uid_from + n) (2 * n)
        (users_from info pool.io_services (place info.uid_from) 0 n)

  -- The first `n` turns of the loop.
  first_turns :
      (n fuel : ℕ)
      → 0 < pool.io_services
      → info.uid_from < 2 ^ 32
      → n ≤ count info
      → place info.uid_from + n < 2 ^ 32
      → ((uid : ℕ)
          → place info.uid_from ≤ place uid
          → place uid < place info.uid_from + n
          → resolves uid ≡ true)
      → n ≤ fuel
      → run_loop resolves info fuel loop_start ≡ run_loop resolves info (fuel - n) (after_turns n)
  first_turns n fuel some_service from_fits inside fits resolved enough =
      ap (λ f. run_loop resolves info f loop_start) fuel_split
      ∙ ap (λ uid. run_loop resolves info (n + (fuel - n)) (record loop_start { uid = uid }))
          (sym (at_place-place info.uid_from from_fits))
      ∙ turns_from resolves info pool n (place info.uid_from) 0 (fuel - n) [] some_service
          (omega (arith, fits)) (omega (arith, inside)) fits
          (λ j low high.
            resolved (at_place j) (omega (arith, low, place-at_place j (omega (arith, high, fits))))
              (omega (arith, high, place-at_place j (omega (arith, high, fits)))))
      ∙ ap
          (λ t. run_loop resolves info (fuel - n) (
            loop_at resolves info pool (place info.uid_from + n) t
              (users_from info pool.io_services (place info.uid_from) 0 n)))
          no_taken
    where
      fuel_split : fuel ≡ n + (fuel - n)
      fuel_split = omega (arith, enough)

      no_taken : 0 + 2 * n ≡ 2 * n
      no_taken = omega arith

  after-place :
      (n : ℕ)
      → place info.uid_from + n < 2 ^ 32
      → place (after_turns n).uid ≡ place info.uid_from + n
  after-place n fits = place-at_place (place info.uid_from + n) fits

  -- Behind the last user the loop ends.
  ends_after :
      (n fuel : ℕ)
      → place info.uid_to < place info.uid_from + n
      → place info.uid_from + n < 2 ^ 32
      → 0 < fuel
      → run_loop resolves info fuel (after_turns n) ≡ some (ends (after_turns n))
  unfolding run_loop turn
  ends_after n zero behind fits enough = absurd (omega (arith, enough))
  ends_after n (suc fuel) behind fits enough =
      rw
        (lt→leb-false (place (after_turns n).uid) (place info.uid_to)
          (omega (arith, behind, after-place n fits)))
        refl

  all_below :
      ((uid : ℕ) → resolves uid ≡ true)
      → (n uid : ℕ) → place info.uid_from ≤ place uid
      → place uid < place info.uid_from + n
      → resolves uid ≡ true
  all_below resolved n uid low high = resolved uid

  -- If `uid_to` is not the greatest `int` and the address can be resolved, the loop ends after
  -- one turn for every value from `uid_from` to `uid_to`; their users are in `users_` in order.
  pub run_loop-ends :
      (fuel : ℕ)
      → 0 < pool.io_services
      → info.uid_from < 2 ^ 32
      → place info.uid_to < 2 ^ 32 - 1
      → ((uid : ℕ) → resolves uid ≡ true)
      → count info < fuel
      → run_loop resolves info fuel loop_start ≡ some (ends (after_turns (count info)))
  run_loop-ends fuel some_service from_fits not_max resolved enough =
      first_turns (count info) fuel some_service from_fits (omega arith) (omega (arith, not_max))
        (all_below resolved (count info)) (omega (arith, enough))
      ∙ ends_after (count info) (fuel - count info) (omega arith) (omega (arith, not_max))
          (omega (arith, enough))

  -- What the turn after `n` users does.
  turn_after :
      (n fuel : ℕ)
      → 0 < pool.io_services
      → n < count info
      → place info.uid_from + n < 2 ^ 32
      → resolves (at_place (place info.uid_from + n)) ≡ true
      → increment (after_turns n).uid ≡ none
      → 0 < fuel
      → run_loop resolves info fuel (after_turns n) ≡ none
  unfolding run_loop add_user
  turn_after n zero some_service inside fits resolved overflow enough =
      absurd (omega (arith, enough))
  turn_after n (suc fuel) some_service inside fits resolved overflow enough =
      rw
        (
          turn_at resolves info pool (place info.uid_from + n) (2 * n)
              (users_from info pool.io_services (place info.uid_from) 0 n) some_service
              (omega (arith, fits)) (omega (arith, inside)) fits resolved,
          overflow,
        )
        refl

  -- If `uid_to` is the greatest `int`, `++uid` overflows behind its user.
  pub run_loop-overflow :
      (fuel : ℕ)
      → 0 < pool.io_services
      → info.uid_from < 2 ^ 32
      → info.uid_to ≡ int_max
      → ((uid : ℕ) → resolves uid ≡ true)
      → count info ≤ fuel
      → run_loop resolves info fuel loop_start ≡ none
  run_loop-overflow fuel some_service from_fits max resolved enough =
      first_turns (count info - 1) fuel some_service from_fits (omega arith)
        (omega (arith, greatest)) (all_below resolved (count info - 1)) (omega (arith, enough))
      ∙ turn_after (count info - 1) (fuel - (count info - 1)) some_service (omega (arith, greatest))
          (omega (arith, greatest)) (resolved _) overflow (omega (arith, greatest, enough))
    where
      greatest : place info.uid_to ≡ 2 ^ 32 - 1
      greatest = omega (arith, max)

      last : at_place (place info.uid_from + (count info - 1)) ≡ int_max
      last = omega (arith, greatest)

      overflow : increment (after_turns (count info - 1)).uid ≡ none
      overflow = unfold increment in rw last refl

  -- The first address that cannot be resolved ends the loop; the users before it stay.
  pub run_loop-throws :
      (fuel n : ℕ)
      → 0 < pool.io_services
      → info.uid_from < 2 ^ 32
      → n < count info
      → ((uid : ℕ)
          → place info.uid_from ≤ place uid
          → place uid < place info.uid_from + n
          → resolves uid ≡ true)
      → resolves (at_place (place info.uid_from + n)) ≡ false
      → n < fuel
      → (s : Loop) × (run_loop resolves info fuel loop_start ≡ some (throws s))
        × (s.users ≡ users_from info pool.io_services (place info.uid_from) 0 n)
  run_loop-throws fuel n some_service from_fits inside resolved fails enough =
      let thrown : Loop = record (after_turns n) { pool = at_turn (suc (suc (2 * n))) pool } in
      (
        thrown,
        first_turns n fuel some_service from_fits (omega (arith, inside)) (omega (arith, inside))
              resolved (omega (arith, enough))
            ∙ fails_at (fuel - n) (omega (arith, enough)),
        refl,
      )
    where
      fails_at :
          (left : ℕ)
          → 0 < left
          → run_loop resolves info left (after_turns n)
            ≡ some (throws (record (after_turns n) { pool = at_turn (suc (suc (2 * n))) pool }))
      fails_at zero there = absurd (omega (arith, there))
      fails_at (suc left) there =
          unfold run_loop turn start_user in
          rw
            (
              le→leb (place (after_turns n).uid) (place info.uid_to)
                  (omega (arith, inside, after-place n (omega (arith, inside)))),
              get_io_service-next (2 * n) pool some_service (omega (arith, inside)),
              get_io_service-next (suc (2 * n)) pool some_service (omega (arith, inside)),
              fails,
            )
            refl
