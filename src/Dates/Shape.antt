-- ===== src/Dates/Shape.antt =====
-- The shape of the texts that dates are printed as.
use emp_apps.Base.{
  ℕ, zero, suc, ◌+◌, ◌-◌, ◌/◌, ◌%◌, ◌≤◌, ◌<◌, ◌≡◌, refl, ap, [], ◌∷◌, ◌++◌, arith, nat_beq-true,
  nat_beq-false, length, length-append, All, All-append,
}
use emp_apps.Base.Text.{Text, before}
use emp_apps.Dates.{
  Civil, civil, year_zero, digits, year_text, date_text, to_iso_string, ms_per_day, clock_text,
}

-- A digit or a sign, so no letter.
abbrev pub IsDateUnit : ℕ → Type 0
IsDateUnit c = c < 58

pub length-digits : (w n : ℕ) → length (digits w n) ≡ w
unfolding digits
length-digits zero n = refl
length-digits (suc w) n =
    omega (arith, length-append (digits w (n / 10)) ((48 + n % 10) ∷ []), length-digits w (n / 10))

digits-All : (w n : ℕ) → All IsDateUnit (digits w n)
unfolding digits
digits-All zero n = tt
digits-All (suc w) n =
    All-append IsDateUnit (digits w (n / 10)) ((48 + n % 10) ∷ []) (digits-All w (n / 10))
      (omega arith, tt)

year_text-All : (y : ℕ) → All IsDateUnit (year_text y)
unfolding year_text
year_text-All y = ground (
  arith,
  digits-All 4 (y - year_zero),
  digits-All 6 (y - year_zero),
  digits-All 6 (year_zero - y),
)

pub date_text-All : (c : Civil) → All IsDateUnit (date_text c)
unfolding date_text
date_text-All c =
    let day : All IsDateUnit (b'-' ∷ digits 2 c.day) = (omega arith, digits-All 2 c.day) in
    let rest : All IsDateUnit (b'-' ∷ (digits 2 c.month ++ b'-' ∷ digits 2 c.day)) = (
      omega arith,
      All-append IsDateUnit (digits 2 c.month) (b'-' ∷ digits 2 c.day) (digits-All 2 c.month) day,
    ) in
    All-append IsDateUnit (year_text c.year) (b'-' ∷ (digits 2 c.month ++ b'-' ∷ digits 2 c.day))
      (year_text-All c.year) rest

before-append :
    (sep : ℕ) (s rest : Text) → All IsDateUnit s → 58 ≤ sep → before sep (s ++ sep ∷ rest) ≡ s
unfolding before
before-append sep [] rest h k = rw (nat_beq-true sep sep refl)
before-append sep (c ∷ s) rest (h, hs) k =
    rw (nat_beq-false c sep (λ e. omega arith)) (ap (c ∷◌) (before-append sep s rest hs k))

-- `toISOString().split('T')[0]` is the date.
pub before-to_iso_string :
    (t : ℕ) → before b'T' (to_iso_string t) ≡ date_text (civil (t / ms_per_day))
unfolding to_iso_string
before-to_iso_string t =
    before-append b'T' (date_text (civil (t / ms_per_day))) (clock_text (t % ms_per_day))
      (date_text-All (civil (t / ms_per_day))) (omega arith)

-- In the years 0 to 9999 a date is printed in ten code units.
pub length-date_text :
    (c : Civil) → year_zero ≤ c.year → c.year < year_zero + 10000 → length (date_text c) ≡ 10
unfolding date_text year_text
length-date_text c h k = ground (
  arith,
  length-append (digits 4 (c.year - year_zero))
      (b'-' ∷ (digits 2 c.month ++ b'-' ∷ digits 2 c.day)),
  length-append (digits 2 c.month) (b'-' ∷ digits 2 c.day),
  length-digits 4 (c.year - year_zero),
  length-digits 2 c.month,
  length-digits 2 c.day,
)
