-- ===== src/Clock.antt =====
-- The readings of package time that internal/omny takes. An instant is the number of nanoseconds
-- since 1 January of the year 1, UTC, so the zero `time.Time` is 0; a duration is a number of
-- nanoseconds. Clocks stand after 1970, so no reading of `Unix()` is negative.
use omny.Base.{ℕ, ◌+◌, ◌-◌, ◌*◌, ◌/◌, ◌%◌, min}

abbrev pub second : ℕ
second = 1000000000

abbrev pub minute : ℕ
minute = 60 * second

abbrev pub day_length : ℕ
day_length = 86400 * second

-- The instant of the Unix epoch, in seconds.
abbrev pub unix_epoch : ℕ
unix_epoch = 62135596800

-- `t.Unix()`.
unfoldable pub unix : ℕ → ℕ
unix t = t / second - unix_epoch

-- The day of the year of a count of days since 1 January of the year 1.
unfoldable pub day_of_year : ℕ → ℕ
day_of_year n =
    let r400 = n % 146097 in
    let r100 = r400 - min 3 (r400 / 36524) * 36524 in
    let r4 = r100 % 1461 in r4 - min 3 (r4 / 365) * 365 + 1

-- `t.UTC().YearDay()`.
unfoldable pub year_day : ℕ → ℕ
unfolding day_of_year
year_day t = day_of_year (t / day_length)
