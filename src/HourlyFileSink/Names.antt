-- ===== src/HourlyFileSink/Names.antt =====
-- The names of the log files. The split of a name into its base and its extension is spdlog's.
use fighting_card.Base.{
  ℕ, suc, ◌+◌, ◌*◌, ◌-◌, ◌^◌, ◌≡◌, ◌≤◌, ◌<◌, ◌∙◌, refl, sym, ap, ◌∷◌, ◌++◌, arith, length,
  replicate, drop, length-append, length-replicate, append-injective, zero,
}
use fighting_card.Base.Text.{Text}
use fighting_card.Base.Int.{decimal, value, value-decimal, length-decimal}

-- The members of `tm` that are used.
pub record Tm : Type 0 where
  pub tm_year : ℕ
  pub tm_mon : ℕ
  pub tm_mday : ℕ
  pub tm_hour : ℕ

-- `{:04d}` and `{:02d}` of numbers that are not negative.
unfoldable pub padded : ℕ → ℕ → Text
padded k n = replicate (k - length (decimal n)) 48 ++ decimal n

-- `calc_filename`: "{}_{:04d}-{:02d}-{:02d}_{:02d}{}".
unfoldable pub calc_filename : (Text → Text × Text) → Text → Tm → Text
calc_filename split_by_extension filename t =
    let parts = split_by_extension filename in
    parts.0
    ++ 95
      ∷ (padded 4 (t.tm_year + 1900)
          ++ 45
            ∷ (padded 2 (t.tm_mon + 1)
                ++ 45 ∷ (padded 2 t.tm_mday ++ 95 ∷ (padded 2 t.tm_hour ++ parts.1))))

value-zeros : (k : ℕ) (t : Text) → value 0 (replicate k 48 ++ t) ≡ value 0 t
value-zeros zero t = refl
value-zeros (suc k) t = ap (λ n. value n (replicate k 48 ++ t)) none_yet ∙ value-zeros k t
  where
    none_yet : 0 * 10 + (48 - 48) ≡ 0
    none_yet = omega arith

length-padded : (k n : ℕ) → n < 10 ^ suc k → k ≤ 9 → length (padded (suc k) n) ≡ suc k
unfolding padded
length-padded k n fits room = omega (
  arith,
  length-append (replicate (suc k - length (decimal n)) 48) (decimal n),
  length-replicate {A = ℕ} (suc k - length (decimal n)) 48,
  length-decimal k n fits room,
)

value-padded : (k n : ℕ) → n < 2 ^ 32 → value 0 (padded k n) ≡ n
unfolding padded
value-padded k n fits = value-zeros (k - length (decimal n)) (decimal n) ∙ value-decimal n fits

-- Two numbers that fit the width, and what follows them.
padded-injective :
    (k m n : ℕ) (s t : Text)
    → m < 10 ^ suc k
    → n < 10 ^ suc k
    → k ≤ 3
    → m < 2 ^ 32
    → n < 2 ^ 32
    → padded (suc k) m ++ s ≡ padded (suc k) n ++ t
    → (m ≡ n) × (s ≡ t)
padded-injective k m n s t fits fits' room small small' e =
    let parts =
      append-injective (padded (suc k) m) s (padded (suc k) n) t
        (length-padded k m fits (omega (arith, room))
          ∙ sym (length-padded k n fits' (omega (arith, room))))
        e in
    (
      sym (value-padded (suc k) m small) ∙ ap (value 0) parts.0 ∙ value-padded (suc k) n small',
      parts.1,
    )

-- The year has four digits.
abbrev pub IsDate : Tm → Type 0
IsDate t = (t.tm_year < 8100) × (t.tm_mon < 12) × (t.tm_mday < 32) × (t.tm_hour < 24)

-- Two different hours of two dates, whose years have four digits, never share a file.
pub calc_filename-injective :
    (split_by_extension : Text → Text × Text) (filename : Text) (s t : Tm)
    → IsDate s
    → IsDate t
    → calc_filename split_by_extension filename s ≡ calc_filename split_by_extension filename t
    → s ≡ t
unfolding calc_filename
calc_filename-injective split_by_extension filename s t h g e =
    rw (year_eq, month_eq, days.0, hours.0) refl
  where
    ext : Text
    ext = (split_by_extension filename).1

    after_day : Tm → Text
    after_day d = 95 ∷ (padded 2 d.tm_hour ++ ext)

    after_month : Tm → Text
    after_month d = 45 ∷ (padded 2 d.tm_mday ++ after_day d)

    after_year : Tm → Text
    after_year d = 45 ∷ (padded 2 (d.tm_mon + 1) ++ after_month d)

    whole :
        padded 4 (s.tm_year + 1900) ++ after_year s ≡ padded 4 (t.tm_year + 1900) ++ after_year t
    whole =
        ap (drop 1)
          (append-injective (split_by_extension filename).0 _ (split_by_extension filename).0 _ refl
            e).1

    years : (s.tm_year + 1900 ≡ t.tm_year + 1900) × (after_year s ≡ after_year t)
    years =
        padded-injective 3 (s.tm_year + 1900) (t.tm_year + 1900) (after_year s) (after_year t)
          (omega (arith, h.0)) (omega (arith, g.0)) (omega arith) (omega (arith, h.0))
          (omega (arith, g.0)) whole

    months : (s.tm_mon + 1 ≡ t.tm_mon + 1) × (after_month s ≡ after_month t)
    months =
        padded-injective 1 (s.tm_mon + 1) (t.tm_mon + 1) (after_month s) (after_month t)
          (omega (arith, h.1)) (omega (arith, g.1)) (omega arith) (omega (arith, h.1))
          (omega (arith, g.1)) (ap (drop 1) years.1)

    days : (s.tm_mday ≡ t.tm_mday) × (after_day s ≡ after_day t)
    days =
        padded-injective 1 s.tm_mday t.tm_mday (after_day s) (after_day t) (omega (arith, h.2))
          (omega (arith, g.2)) (omega arith) (omega (arith, h.2)) (omega (arith, g.2))
          (ap (drop 1) months.1)

    hours : (s.tm_hour ≡ t.tm_hour) × (ext ≡ ext)
    hours =
        padded-injective 1 s.tm_hour t.tm_hour ext ext (omega (arith, h.3)) (omega (arith, g.3))
          (omega arith) (omega (arith, h.3)) (omega (arith, g.3)) (ap (drop 1) days.1)

    year_eq : s.tm_year ≡ t.tm_year
    year_eq = omega (arith, years.0)

    month_eq : s.tm_mon ≡ t.tm_mon
    month_eq = omega (arith, months.0)
