-- ===== src/Dates.antt =====
-- The parts of JavaScript's `Date` that FeedItem.jsx and FeedList.jsx use. A time value is counted in
-- milliseconds from the first day that a `Date` can hold, so that it is a natural number; the epoch
-- stands at `epoch`. Reading a text is the browser's, and is the parameter `parse` of its users.
pub mod Shape
use emp_apps.Base.{
  ℕ, zero, suc, ◌+◌, ◌-◌, ◌*◌, ◌/◌, ◌%◌, Bool, ◌&&◌, List, [], ◌∷◌, ◌++◌, Option, none, some, ltb,
  leb, if◌then◌else◌,
}
use emp_apps.Base.Text.{Text}

abbrev pub ms_per_day : ℕ
ms_per_day = 86400000

-- 100,000,000 days lie between the first day and 1 January 1970.
abbrev pub epoch : ℕ
epoch = 8640000000000000

-- `new Date(d).getTime()` for a text or null; `none` is `NaN`.
unfoldable pub time_of : (Text → Option ℕ) → Option Text → Option ℕ
time_of parse none = some epoch
time_of parse (some s) = parse s

pub record Civil : Type 0 where
  pub year : ℕ
  pub month : ℕ
  pub day : ℕ

-- Years are counted from the year -272000, a multiple of 400 before the first day.
abbrev pub year_zero : ℕ
year_zero = 272000

-- The year of an era of 400 years, from the days since its 1 March.
unfoldable pub year_of_era : ℕ → ℕ
year_of_era d = (d - d / 1460 + d / 36524 - d / 146096) / 365

unfoldable pub day_of_year : ℕ → ℕ
unfolding year_of_era
day_of_year d = let y = year_of_era d in d - (365 * y + y / 4 - y / 100)

-- The month from March on, 0 to 11.
unfoldable pub month_from_march : ℕ → ℕ
month_from_march n = (5 * n + 2) / 153

unfoldable pub civil_of_era : ℕ → ℕ → Civil
unfolding day_of_year month_from_march
civil_of_era era d =
    let n = day_of_year d in
    let m = month_from_march n in
    record {
      year = era * 400 + year_of_era d + (if ltb m 10 then 0 else 1);
      month = if ltb m 10 then m + 3 else m - 9;
      day = n - (153 * m + 2) / 5 + 1;
    }

-- The proleptic Gregorian date of a day, counted from the first day.
unfoldable pub civil : ℕ → Civil
unfolding civil_of_era
civil day = let n = day + 65428 in civil_of_era (n / 146097) (n % 146097)

-- The last `w` decimal digits.
unfoldable pub digits : ℕ → ℕ → Text
digits zero n = []
digits (suc w) n = digits w (n / 10) ++ (48 + n % 10) ∷ []

-- Four digits for the years 0 to 9999, and a sign with six for all others.
unfoldable pub year_text : ℕ → Text
unfolding digits
year_text y =
    if leb year_zero y && ltb y (year_zero + 10000)
    then digits 4 (y - year_zero)
    else if leb year_zero y
    then b'+' ∷ digits 6 (y - year_zero)
    else b'-' ∷ digits 6 (year_zero - y)

unfoldable pub date_text : Civil → Text
unfolding year_text
date_text c = year_text c.year ++ b'-' ∷ (digits 2 c.month ++ b'-' ∷ digits 2 c.day)

unfoldable pub clock_text : ℕ → Text
unfolding digits
clock_text ms =
    digits 2 (ms / 3600000)
    ++ b':'
      ∷ (digits 2 (ms / 60000 % 60)
          ++ b':' ∷ (digits 2 (ms / 1000 % 60) ++ b'.' ∷ (digits 3 (ms % 1000) ++ b'Z' ∷ [])))

-- `date.toISOString()`
unfoldable pub to_iso_string : ℕ → Text
unfolding civil date_text clock_text
to_iso_string t = date_text (civil (t / ms_per_day)) ++ b'T' ∷ clock_text (t % ms_per_day)
