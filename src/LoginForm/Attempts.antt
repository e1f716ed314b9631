-- ===== src/LoginForm/Attempts.antt =====
-- The form between its submissions and their results.
use emp_apps.Base.{
  ℕ, suc, ◌≡◌, refl, true, false, [], ◌∷◌, none, some, arith, Result, ok, err, if◌then◌else◌,
}
use emp_apps.Base.Text.{Text, js, or_else}
use emp_apps.Shared.{error_banner}
use emp_apps.LoginForm.{Form, initial, set_email, set_password, close_error, submit, settle, view}

-- A form with the number of calls of `onLoginSuccess` that have not settled.
pub record Session : Type 0 where
  pub form : Form
  pub outstanding : ℕ

-- A browser does not submit a form whose submit button is disabled.
pub data Step (s t : Session) : Type 0 where
  type_email : (v : Text) → t ≡ record s { form = set_email v s.form } → Step s t
  type_password : (v : Text) → t ≡ record s { form = set_password v s.form } → Step s t
  close : t ≡ record s { form = close_error s.form } → Step s t
  send :
      (view s.form).disabled ≡ false
      → t ≡ record { form = (submit s.form).0; outstanding = suc s.outstanding }
      → Step s t
  answer :
      (n : ℕ) (r : Result (Unit {0}))
      → s.outstanding ≡ suc n
      → t ≡ record { form = settle r s.form; outstanding = n }
      → Step s t

pub data Reach (s : Session) : Session → Type 0 where
  here : Reach s s
  next : {t u : Session} → Reach s t → Step t u → Reach s u

-- `loading` says whether a call is outstanding.
abbrev pub IsCounted : Session → Type 0
IsCounted s = s.outstanding ≡ (if s.form.loading then 1 else 0)

abbrev pub start : Session
start = record { form = initial; outstanding = 0 }

Step-IsCounted : {s t : Session} → Step s t → IsCounted s → IsCounted t
unfolding set_email set_password close_error submit settle view
Step-IsCounted (type_email v e) h = ground arith
Step-IsCounted (type_password v e) h = ground arith
Step-IsCounted (close e) h = ground arith
Step-IsCounted {s} (send d e) h = ground arith
Step-IsCounted {s} (answer n (ok x) o e) h = ground arith
Step-IsCounted {s} (answer n (err m) o e) h = ground arith

Reach-IsCounted : {s t : Session} → Reach s t → IsCounted s → IsCounted t
Reach-IsCounted here h = h
Reach-IsCounted (next r st) h = Step-IsCounted st (Reach-IsCounted r h)

-- From the first form on, however the user and the server act: one call is outstanding if the form shows
-- its spinner and none if it does not, and the button is disabled exactly while the spinner is shown.
pub Reach-view :
    (s : Session)
    → Reach start s
    → (s.outstanding ≡ (if (view s.form).spinner then 1 else 0))
      × ((view s.form).disabled ≡ (view s.form).spinner)
unfolding view
Reach-view s r = (Reach-IsCounted r refl, refl)

-- After a rejection the form is ready for another attempt and shows a banner with a message, also where
-- the error has none; after a success it shows none. What was typed stays.
pub settle-submit :
    (form : Form) (r : Result (Unit {0}))
    → let after = settle r (submit form).0 in
      (after.loading ≡ false)
      × (after.email ≡ form.email)
      × (after.password ≡ form.password)
      × ((view after).banner ≡ (elim r [
        | ok _ ↦ none
        | err m ↦
            some (record { message = or_else m (js "Invalid email or password"); closable = true })
      ]))
unfolding settle submit view error_banner js
settle-submit form (ok x) = (refl, refl, refl, refl)
settle-submit form (err []) = (refl, refl, refl, refl)
settle-submit form (err (c ∷ m)) = (refl, refl, refl, refl)
