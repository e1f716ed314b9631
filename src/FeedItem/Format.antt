-- ===== src/FeedItem/Format.antt =====
-- Dates of stories as they are shown.
use emp_apps.Base.{
  ℕ, ◌+◌, ◌/◌, ◌≤◌, ◌<◌, ◌≡◌, refl, sym, ap, ◌∙◌, true, [], ◌∷◌, Option, none, some, length,
}
use emp_apps.Base.Text.{Text, truthy}
use emp_apps.Dates.{civil, date_text, ms_per_day, year_zero}
use emp_apps.Dates.Shape.{before-to_iso_string, length-date_text}
use emp_apps.FeedItem.{format_date}

module _ (parse : Text → Option ℕ) where
  -- A text that is a date is shown as its day in UTC, the time of day left out.
  format_date_of_date :
      (s : Text) (t : ℕ)
      → truthy s ≡ true
      → parse s ≡ some t
      → format_date parse (some s) ≡ date_text (civil (t / ms_per_day))
  unfolding format_date
  format_date_of_date s t h e = rw (h, e) (before-to_iso_string t)

  -- A text that is no date is shown as it is.
  pub format_date_of_other : (s : Text) → parse s ≡ none → format_date parse (some s) ≡ s
  unfolding format_date
  format_date_of_other [] e = refl
  format_date_of_other (c ∷ s) e = rw e

  -- A date of the years 0 to 9999 is shown in ten code units.
  pub length-format_date :
      (s : Text) (t : ℕ)
      → truthy s ≡ true
      → parse s ≡ some t
      → year_zero ≤ (civil (t / ms_per_day)).year
      → (civil (t / ms_per_day)).year < year_zero + 10000
      → length (format_date parse (some s)) ≡ 10
  length-format_date s t h e lo hi =
      rw (format_date_of_date s t h e) (length-date_text (civil (t / ms_per_day)) lo hi)

  -- Two texts whose times lie on one day in UTC are shown alike.
  pub format_date_same_day :
      (s s' : Text) (t t' : ℕ)
      → truthy s ≡ true
      → truthy s' ≡ true
      → parse s ≡ some t
      → parse s' ≡ some t'
      → t / ms_per_day ≡ t' / ms_per_day
      → format_date parse (some s) ≡ format_date parse (some s')
  format_date_same_day s s' t t' h h' e e' d =
      format_date_of_date s t h e
      ∙ ap (λ n. date_text (civil n)) d
      ∙ sym (format_date_of_date s' t' h' e')
