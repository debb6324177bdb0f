-- ===== src/Daemon.antt =====
-- common/daemon.h: `CreateDaemon`, as one process sees it. What `fork` and `setsid` return is given,
-- and so is what `open` does to the open files of the process, a table by descriptor.
pub mod Files
pub mod Tests
use fighting_card.Base.{
  ℕ, zero, suc, ◌+◌, Bool, true, false, Option, none, some, ltb, ◌==◌, if◌then◌else◌,
}

-- `fork` fails, or returns in the parent or in the child.
pub data Fork : Type 0 where
  failed parent child : Fork

pub data File : Type 0 where
  null_read null_read_write other : File

abbrev pub Files : Type 0
Files = ℕ → Option File

-- The process ends, or goes on with the value that is returned.
pub data Fate : Type 0 where
  exits : Fate
  returns_minus_1 : Files → Fate
  returns_0 : Files → Fate

abbrev pub close_file : ℕ → Files → Files
close_file fd files = λ i. if fd == i then none else files i

-- The loop over the descriptors below `n`.
unfoldable pub close_below : ℕ → Files → Files
close_below zero files = files
close_below (suc n) files = close_file n (close_below n files)

abbrev pub put_file : File → ℕ → Files → Files
put_file f fd files = λ i. if fd == i then some f else files i

-- "/dev/null" for stdin, stdout and stderr.
module _ (open_file : File → Files → Files) where
  unfoldable pub redirect : Files → Files
  redirect files =
      open_file null_read_write
        (open_file null_read_write (open_file null_read (close_below 64 files)))

  -- From the second `fork` on.
  unfoldable pub second_child : Fork → Files → Fate
  second_child failed files = returns_minus_1 files
  second_child parent files = exits
  second_child child files = returns_0 (redirect files)

  -- `CreateDaemon`; `signal` is not modelled.
  unfoldable pub create_daemon : Fork → Bool → Fork → Files → Fate
  create_daemon failed session_made second files = returns_minus_1 files
  create_daemon parent session_made second files = exits
  create_daemon child session_made second files =
      if session_made then second_child second files else returns_minus_1 files
