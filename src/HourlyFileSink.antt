-- ===== src/HourlyFileSink.antt =====
-- common/hourly_file_sink.h: log files by the hour. Times are seconds from 3600 on; local time is
-- `offset` seconds ahead and does not change that. A file is the number of the hour that its
-- name gives.
pub mod Hours
pub mod Names
pub mod Tests
use fighting_card.Base.{
  ℕ, ◌+◌, ◌*◌, ◌-◌, ◌/◌, ◌%◌, Bool, true, false, ◌||◌, Option, none, some, List, [], ◌∷◌, ◌++◌, ltb,
  leb, if◌then◌else◌,
}

-- The state, and what was written: the file and the time of each message.
pub record Sink : Type 0 where
  pub rotation_interval : ℕ
  pub rotation_tp : ℕ
  pub file : ℕ
  pub written : List (ℕ × ℕ)

module _ (offset : ℕ) where
  -- `calc_filename` of `now_tm`.
  abbrev pub hour : ℕ → ℕ
  hour tp = (tp + offset) / 3600

  -- `next_rotation_tp_`: `tm_min` and `tm_sec` are set to 0.
  unfoldable pub next_rotation_tp : ℕ → ℕ → ℕ
  next_rotation_tp rotation_interval now =
      let rotation_time = now - (now + offset) % 3600 in
      if ltb now rotation_time then rotation_time else rotation_time + rotation_interval * 3600

  -- The constructor; a throw is `none`.
  unfoldable pub hourly_file_sink : ℕ → ℕ → Option Sink
  hourly_file_sink rotation_interval now =
      if ltb rotation_interval 1 || ltb 24 rotation_interval
      then none
      else some (record {
        rotation_interval = rotation_interval;
        rotation_tp = next_rotation_tp rotation_interval now;
        file = hour now;
        written = [];
      })

  -- `sink_it_` at the time `now`, with a message of the time `time`.
  unfoldable pub sink_it : ℕ → ℕ → Sink → Sink
  sink_it now time s =
      let opened =
        if leb s.rotation_tp time
        then record s { file = hour time; rotation_tp = next_rotation_tp s.rotation_interval now }
        else s in
      record opened { written = opened.written ++ (opened.file, time) ∷ [] }

  -- Messages, each as the time at which it is handled and its own.
  unfoldable pub sink_all : List (ℕ × ℕ) → Sink → Sink
  sink_all [] s = s
  sink_all (m ∷ ms) s = sink_all ms (sink_it m.0 m.1 s)
