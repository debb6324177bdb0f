-- ===== src/HourlyFileSink/Hours.antt =====
-- Which file a message is written to, with the default interval of one hour.
use fighting_card.Base.{
  ℕ, suc, ◌+◌, ◌*◌, ◌≡◌, ◌≢◌, ◌≤◌, ◌<◌, ◌∙◌, refl, ap, inl, inr, true, false, some, List, [], ◌∷◌,
  ◌++◌, arith, leb, Bool-cases, All,
}
use fighting_card.HourlyFileSink.{Sink, hour, next_rotation_tp, hourly_file_sink, sink_it, sink_all}

module _ (offset : ℕ) where
  next_rotation_tp-hour :
      (now : ℕ) → 3600 ≤ now → next_rotation_tp offset 1 now + offset ≡ suc (hour offset now) * 3600
  unfolding next_rotation_tp
  next_rotation_tp-hour now late = ground (arith, late)

  -- Every message is in the file of its hour.
  abbrev pub IsFiled : Sink → Type 0
  IsFiled s = All (λ w. w.0 ≡ hour offset w.1) s.written

  -- The next file begins with the next hour.
  abbrev pub IsCurrent : Sink → Type 0
  IsCurrent s = (s.rotation_interval ≡ 1) × (s.rotation_tp + offset ≡ suc s.file * 3600)

  -- Each message is handled in its hour, and no message is of an hour before the last one's.
  abbrev pub ArePrompt : ℕ → List (ℕ × ℕ) → Type 0
  ArePrompt h [] = Unit
  ArePrompt h (m ∷ ms) =
      (3600 ≤ m.0)
      × (hour offset m.0 ≡ hour offset m.1)
      × (h ≤ hour offset m.1)
      × ArePrompt (hour offset m.1) ms

  All-snoc :
      (ws : List (ℕ × ℕ)) (w : ℕ × ℕ)
      → All (λ v. v.0 ≡ hour offset v.1) ws
      → w.0 ≡ hour offset w.1
      → All (λ v. v.0 ≡ hour offset v.1) (ws ++ w ∷ [])
  All-snoc [] w a e = (e, tt)
  All-snoc (v ∷ ws) w a e = (a.0, All-snoc ws w a.1 e)

  sink_it-IsCurrent :
      (now time : ℕ) (s : Sink)
      → 3600 ≤ now
      → hour offset now ≡ hour offset time
      → s.file ≤ hour offset time
      → IsCurrent s
      → IsFiled s
      → IsCurrent (sink_it offset now time s)
        × IsFiled (sink_it offset now time s)
        × ((sink_it offset now time s).file ≡ hour offset time)
  unfolding sink_it
  sink_it-IsCurrent now time s late same after v filed =
      elim (Bool-cases (leb s.rotation_tp time)) [
        | inl new ↦ rw new (
          (v.0, rw v.0 (next_rotation_tp-hour now late ∙ ap (λ h. suc h * 3600) same)),
          All-snoc s.written (hour offset time, time) filed refl,
          refl,
        )
        | inr old ↦
            let current : s.file ≡ hour offset time = ground (arith, old, v.1, after) in
            rw old (v, All-snoc s.written (s.file, time) filed current, current)
      ]

  sink_all-IsFiled :
      (ms : List (ℕ × ℕ)) (s : Sink)
      → ArePrompt s.file ms
      → IsCurrent s
      → IsFiled s
      → IsFiled (sink_all offset ms s)
  unfolding sink_all
  sink_all-IsFiled [] s prompt v filed = filed
  sink_all-IsFiled (m ∷ ms) s prompt v filed =
      let next = sink_it-IsCurrent m.0 m.1 s prompt.0 prompt.1 prompt.2 v filed in
      sink_all-IsFiled ms (sink_it offset m.0 m.1 s) (rw next.2 prompt.3) next.0 next.1

  -- From the constructor on, with messages that are handled in the hour of their time and whose
  -- hours do not go back, every message is written to the file of its hour.
  pub sink_all-hours :
      (start : ℕ) (ms : List (ℕ × ℕ))
      → 3600 ≤ start
      → ArePrompt (hour offset start) ms
      → (s : Sink) × (hourly_file_sink offset 1 start ≡ some s) × IsFiled (sink_all offset ms s)
  unfolding hourly_file_sink
  sink_all-hours start ms late prompt =
      (fresh, refl, sink_all-IsFiled ms fresh prompt (refl, next_rotation_tp-hour start late) tt)
    where
      fresh : Sink
      fresh = record {
        rotation_interval = 1;
        rotation_tp = next_rotation_tp offset 1 start;
        file = hour offset start;
        written = [];
      }

  -- But the next rotation is counted from the time at which a message is handled, its file from
  -- the time of the message. When the message that opens a file is handled in a later hour, a
  -- message of that hour is written to the old hour's file.
  pub sink_it_late :
      (now time later : ℕ) (then_now : ℕ) (s : Sink)
      → 3600 ≤ now
      → s.rotation_interval ≡ 1
      → s.rotation_tp ≤ time
      → hour offset time < hour offset now
      → hour offset later ≡ hour offset now
      → let after = sink_it offset then_now later (sink_it offset now time s) in
        (after.written
          ≡ (s.written ++ (hour offset time, time) ∷ []) ++ (hour offset time, later) ∷ [])
        × (hour offset time ≢ hour offset later)
  unfolding sink_it
  sink_it_late now time later then_now s late one due before same =
      rw (is_due, not_yet) (refl, λ e. omega (arith, before, same, e))
    where
      is_due : leb s.rotation_tp time ≡ true
      is_due = ground (arith, due)

      end_of_hour :
          next_rotation_tp offset s.rotation_interval now + offset ≡ suc (hour offset now) * 3600
      end_of_hour = rw one (next_rotation_tp-hour now late)

      not_yet : leb (next_rotation_tp offset s.rotation_interval now) later ≡ false
      not_yet = ground (arith, end_of_hour, same)
