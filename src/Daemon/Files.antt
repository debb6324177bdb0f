-- ===== src/Daemon/Files.antt =====
-- The open files of the daemon.
use fighting_card.Base.{
  ℕ, zero, suc, ◌≡◌, ◌≢◌, ◌≤◌, ◌<◌, ◌↔◌, ◌∙◌, refl, ap, inl, inr, Bool, true, false, Option, none,
  some, ltb, ◌==◌, if◌then◌else◌, arith, Bool-cases,
}
use fighting_card.Daemon.{
  Fork, failed, parent, child, File, null_read, null_read_write, Files, returns_0, close_below,
  put_file, redirect, second_child, create_daemon,
}

below_closed : (n i : ℕ) (files : Files) → i < n → close_below n files i ≡ none
unfolding close_below
below_closed zero i files h = absurd (omega (arith, h))
below_closed (suc n) i files h = elim (Bool-cases (n == i)) [
  | inl e ↦ rw e refl
  | inr e ↦ rw e (below_closed n i files (ground (arith, h, e)))
]

above_kept : (n i : ℕ) (files : Files) → n ≤ i → close_below n files i ≡ files i
unfolding close_below
above_kept zero i files h = refl
above_kept (suc n) i files h = rw other (above_kept n i files (omega (arith, h)))
  where
    other : (n == i) ≡ false
    other = ground (arith, h)

-- `open` takes the lowest descriptor that is free, as POSIX says; of the first three at least.
abbrev pub TakesLowest : (File → Files → Files) → Type 0
TakesLowest open_file =
    (f : File) (files : Files) (fd : ℕ)
    → fd < 3
    → files fd ≡ none
    → ((i : ℕ) → i < fd → files i ≢ none)
    → open_file f files ≡ put_file f fd files

-- The table in which the first three descriptors are taken.
abbrev pub with_null : Files → Files
with_null files i =
    if 2 == i
    then some null_read_write
    else if 1 == i
    then some null_read_write
    else if 0 == i
    then some null_read
    else files i

taken : {A : Type 0} (a : A) → Path (Option A) (some a) none → ⊥
taken a e = cc e

module _ (open_file : File → Files → Files) (lowest : TakesLowest open_file) where
  redirected : (files : Files) → redirect open_file files ≡ with_null (close_below 64 files)
  unfolding redirect
  redirected files = rw (first, second, third) refl
    where
      closed : Files
      closed = close_below 64 files

      one : Files
      one = put_file null_read 0 closed

      two : Files
      two = put_file null_read_write 1 one

      first : open_file null_read closed ≡ one
      first =
          lowest null_read closed 0 (omega arith) (below_closed 64 0 files (omega arith))
            (λ i low. absurd (omega (arith, low)))

      second : open_file null_read_write one ≡ two
      second =
          lowest null_read_write one 1 (omega arith) (below_closed 64 1 files (omega arith))
            (λ i low. ground (arith, low))

      third : open_file null_read_write two ≡ put_file null_read_write 2 two
      third =
          lowest null_read_write two 2 (omega arith) (below_closed 64 2 files (omega arith))
            (λ i low. ground (arith, low))

-- Which process goes on with the value 0.
goes_on :
    (open_file : File → Files → Files) (first second : Fork) (session_made : Bool) (files : Files)
    → (create_daemon open_file first session_made second files
        ≡ returns_0 (redirect open_file files))
      ↔ ((first ≡ child) × (session_made ≡ true) × (second ≡ child))
unfolding create_daemon second_child
goes_on open_file failed second made files = (λ e. absurd (cc e), λ h. absurd (cc h.0))
goes_on open_file parent second made files = (λ e. absurd (cc e), λ h. absurd (cc h.0))
goes_on open_file child second false files = (λ e. absurd (cc e), λ h. absurd (cc h.1))
goes_on open_file child failed true files = (λ e. absurd (cc e), λ h. absurd (cc h.2))
goes_on open_file child parent true files = (λ e. absurd (cc e), λ h. absurd (cc h.2))
goes_on open_file child child true files = (λ e. (refl, refl, refl), λ h. refl)

-- The process that goes on with the value 0 is the child of the child, after `setsid` has
-- succeeded, if `open` takes the lowest descriptor that is free. Its stdin, stdout and stderr are
-- "/dev/null", 3 to 63 are closed, and the files from 64 on are as they were.
pub create_daemon-files :
    (open_file : File → Files → Files) (first second : Fork) (session_made : Bool) (files : Files)
    → TakesLowest open_file
    → (after : Files) × ((create_daemon open_file first session_made second files ≡ returns_0 after)
        ↔ ((first ≡ child) × (session_made ≡ true) × (second ≡ child)))
      × (after 0 ≡ some null_read)
      × (after 1 ≡ some null_read_write)
      × (after 2 ≡ some null_read_write)
      × ((fd : ℕ) → 3 ≤ fd → after fd ≡ (if ltb fd 64 then none else files fd))
create_daemon-files open_file first second made files lowest = (
  redirect open_file files,
  goes_on open_file first second made files,
  ap (λ t. t 0) table,
  ap (λ t. t 1) table,
  ap (λ t. t 2) table,
  λ fd behind. ap (λ t. t fd) table ∙ rest fd behind,
)
  where
    table : redirect open_file files ≡ with_null (close_below 64 files)
    table = redirected open_file lowest files

    rest :
        (fd : ℕ)
        → 3 ≤ fd
        → with_null (close_below 64 files) fd ≡ (if ltb fd 64 then none else files fd)
    rest fd behind = elim (Bool-cases (ltb fd 64)) [
      | inl e ↦ ground (arith, behind, below_closed 64 fd files (ground (arith, e)))
      | inr e ↦ ground (arith, behind, above_kept 64 fd files (ground (arith, e)))
    ]
