-- ===== src/Daemon/Tests.antt =====
-- A process with the files 0 to 99.
use fighting_card.Base.{
  ℕ, zero, suc, ◌≡◌, ◌↔◌, ◌≤◌, ◌≢◌, refl, Bool, true, false, Option, none, some, ltb, if◌then◌else◌,
  arith,
}
use fighting_card.Daemon.{
  child, File, null_read, null_read_write, other, Files, put_file, returns_0, create_daemon,
}
use fighting_card.Daemon.Files.{TakesLowest, create_daemon-files}

abbrev is_free : Option File → Bool
is_free none = true
is_free (some f) = false

-- The first three descriptors only.
abbrev open_file : File → Files → Files
open_file f files =
    if is_free (files 0)
    then put_file f 0 files
    else if is_free (files 1)
    then put_file f 1 files
    else if is_free (files 2)
    then put_file f 2 files
    else files

not_free : (o : Option File) → o ≢ none → is_free o ≡ false
not_free none h = absurd (h refl)
not_free (some f) h = refl

open_file-TakesLowest : TakesLowest open_file
open_file-TakesLowest f files zero low free below = rw free refl
open_file-TakesLowest f files (suc zero) low free below =
    rw (not_free (files 0) (below 0 (omega arith)), free) refl
open_file-TakesLowest f files (suc (suc zero)) low free below =
    rw
      (not_free (files 0) (below 0 (omega arith)), not_free (files 1) (below 1 (omega arith)), free)
      refl
open_file-TakesLowest f files (suc (suc (suc n))) low free below = absurd (omega (arith, low))

abbrev files : Files
files fd = if ltb fd 100 then some other else none

create_daemon-files_example :
    (last : Files) × ((create_daemon open_file child true child files ≡ returns_0 last)
      ↔ ((child ≡ child) × (true ≡ true) × (child ≡ child)))
    × (last 0 ≡ some null_read)
    × (last 1 ≡ some null_read_write)
    × (last 2 ≡ some null_read_write)
    × ((fd : ℕ) → 3 ≤ fd → last fd ≡ (if ltb fd 64 then none else files fd))
create_daemon-files_example =
    create_daemon-files open_file child child true files open_file-TakesLowest
