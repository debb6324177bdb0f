-- ===== src/HourlyFileSink/Tests.antt =====
-- A log that is opened at 10:30 UTC of the first day.
use fighting_card.Base.{ℕ, ◌≡◌, ◌≢◌, refl, some, List, [], ◌∷◌, arith}
use fighting_card.HourlyFileSink.{Sink, hour, hourly_file_sink, sink_it, sink_all}
use fighting_card.Base.Text.{Text}
use fighting_card.HourlyFileSink.Names.{Tm, calc_filename-injective}
use fighting_card.HourlyFileSink.Hours.{IsFiled, sink_all-hours, sink_it_late}

abbrev messages : List (ℕ × ℕ)
messages = (37801, 37800) ∷ (39601, 39600) ∷ []

sink_all-hours_example :
    (s : Sink) × (hourly_file_sink 0 1 37800 ≡ some s) × IsFiled 0 (sink_all 0 messages s)
sink_all-hours_example =
    sink_all-hours 0 37800 messages (omega arith)
      ((omega arith, refl, omega arith, (omega arith, refl, omega arith, tt)))

abbrev opened : Sink
opened = record { rotation_interval = 1; rotation_tp = 39600; file = 10; written = [] }

-- A message of 11:59:59 is handled at 12:00:01, and then one of 12:30.
sink_it_late_example :
    let after = sink_it 0 45000 45000 (sink_it 0 43201 43199 opened) in
    (after.written ≡ (11, 43199) ∷ (11, 45000) ∷ []) × (11 ≢ hour 0 45000)
sink_it_late_example =
    sink_it_late 0 43201 43199 45000 45000 opened (omega arith) refl (omega arith) (omega arith)
      refl

-- 10 o'clock on the seventh of November 2018.
abbrev day : Tm
day = record { tm_year = 118; tm_mon = 10; tm_mday = 7; tm_hour = 10 }

abbrev no_extension : Text → Text × Text
no_extension filename = (filename, [])

calc_filename-injective_example : day ≡ day
calc_filename-injective_example =
    calc_filename-injective no_extension (97 ∷ []) day day
      (omega arith, omega arith, omega arith, omega arith)
      (omega arith, omega arith, omega arith, omega arith) refl
