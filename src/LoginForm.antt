-- ===== src/LoginForm.antt =====
-- `LoginForm` of app/frontend/components/auth/LoginForm.jsx: its four states, the two halves of
-- `handleSubmit` before and after the awaited call of `onLoginSuccess`, and what the form shows.
pub mod Attempts
use emp_apps.Base.{
  ℕ, zero, suc, ◌≡◌, Bool, true, false, List, [], Option, none, some, if◌then◌else◌, Result, ok,
  err,
}
use emp_apps.Base.Text.{Text, js, or_else}
use emp_apps.Shared.{BannerView, error_banner}

pub record Form : Type 0 where
  pub email : Text
  pub password : Text
  pub error : Text
  pub loading : Bool

abbrev pub initial : Form
initial = record { email = []; password = []; error = []; loading = false }

unfoldable pub set_email : Text → Form → Form
set_email value form = record form { email = value }

unfoldable pub set_password : Text → Form → Form
set_password value form = record form { password = value }

-- The banner's `onClose`.
unfoldable pub close_error : Form → Form
close_error form = record form { error = [] }

-- `handleSubmit` up to the `await`: the new state, and the arguments of `onLoginSuccess`.
unfoldable pub submit : Form → Form × (Text × Text)
submit form = (record form { error = []; loading = true }, (form.email, form.password))

-- The `catch` and the `finally`.
unfoldable pub settle : Result (Unit {0}) → Form → Form
settle (ok _) form = record form { loading = false }
settle (err m) form = record form {
  error = or_else m (js "Invalid email or password");
  loading = false;
}

pub record FormView : Type 0 where
  pub banner : Option BannerView
  pub email : Text
  pub password : Text
  pub disabled : Bool
  pub spinner : Bool

unfoldable pub view : Form → FormView
view form = record {
  banner = error_banner form.error true;
  email = form.email;
  password = form.password;
  disabled = form.loading;
  spinner = form.loading;
}
