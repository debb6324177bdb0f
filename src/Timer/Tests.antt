-- ===== src/Timer/Tests.antt =====
-- A timer of two units, begun at the time 10.
use fighting_card.Base.{ℕ, ◌≡◌, [], ◌∷◌, arith}
use fighting_card.Timer.{until, add, run, ticks, stops, handles, Clock, history}
use fighting_card.Timer.Stop.{stop_silences}
use fighting_card.Timer.Period.{periods, run_periodic}

abbrev waiting : Clock ℕ
waiting = record {
  now = 10;
  items = record { wait = until 12; duration = 2; func = 7 } ∷ [];
  calls = [];
}

run_periodic_example :
    (history {F = ℕ}
      (record { now = 10; items = run 10 (add 2 7 []); calls = [] })
      (periods 2 3)).calls
    ≡ (12, 7) ∷ (14, 7) ∷ (16, 7) ∷ []
run_periodic_example = run_periodic 2 7 10 3 (omega arith)

stop_silences_example : (history waiting (stops ∷ ticks ∷ ticks ∷ handles 0 ∷ [])).calls ≡ []
stop_silences_example = stop_silences waiting (ticks ∷ ticks ∷ handles 0 ∷ []) ((λ e. cc e), tt)
