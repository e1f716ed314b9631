-- ===== src/App/Guards.antt =====
-- What a render leaves.
use emp_apps.Base.{
  [], ◌∷◌, ◌++◌, suc, arith, ◌&&◌, ◌≡◌, ◌↔◌, refl, sym, ap, ◌∙◌, Bool, true, false, none, some, inl,
  inr, Option-cases, Bool-cases,
}
use emp_apps.MainApp.{dashboard, navigate_to, navigate, Main, Router, loading, screen, follow}
use emp_apps.MainApp.Routes.{home_screen, follow_ends, follow_redirect}
use emp_apps.Base.Text.{Text}
use emp_apps.Dashboard.{first_page}
use emp_apps.App.{
  on_main, mount_items, mount_mode, App, Step, answered, message, submits, signs_in, signs_out,
  goes, timeout, flash_timeout, closes_error, closes_flash, wait, Reach, here, next, render,
  is_dashboard,
}

-- The dashboard is mounted exactly when the user is signed in, and then it is what the route shows; the
-- form is what it shows if the user is not.
pub record IsRendered (r : Router) (a : App) : Type 0 where
  pub mounted : (a.mounted ≡ true) ↔ (a.main.authenticated ≡ some true)
  pub shown : (b : Bool) → a.main.authenticated ≡ some b → screen r a.main ≡ home_screen b

screen_booting : (r : Router) (s : Main) → s.authenticated ≡ none → screen r s ≡ loading
unfolding screen
screen_booting r s e = rw e

pub follow_booting : (r : Router) (s : Main) → s.authenticated ≡ none → follow 1 r s ≡ s
unfolding follow
follow_booting r s e = rw (screen_booting r s e, follow)

pub render-main : (r : Router) (a : App) → (render r a).main ≡ follow 1 r a.main
unfolding render
render-main r a = elim (Bool-cases (is_dashboard (screen r (follow 1 r a.main)))) [
  | inl e ↦ elim (Bool-cases (a.mounted && is_dashboard (screen r a.main))) [
    | inl m ↦ rw (e, m)
    | inr m ↦ rw (e, m)
  ]
  | inr e ↦ rw e
]

pub render-mounted :
    (r : Router) (a : App) → (render r a).mounted ≡ is_dashboard (screen r (follow 1 r a.main))
unfolding render
render-mounted r a = elim (Bool-cases (is_dashboard (screen r (follow 1 r a.main)))) [
  | inl e ↦ elim (Bool-cases (a.mounted && is_dashboard (screen r a.main))) [
    | inl m ↦ (let held : a.mounted ≡ true = ground arith in rw (e, m, held))
    | inr m ↦ rw (e, m)
  ]
  | inr e ↦ rw e
]

-- Following redirects leaves it alone whether the user is signed in.
follow-authenticated : (r : Router) (s : Main) → (follow 1 r s).authenticated ≡ s.authenticated
follow-authenticated r s = elim (Option-cases s.authenticated) [
  | inl e ↦ rw (follow_booting r s e)
  | inr (b, e) ↦ elim (follow_ends r s b 0 e).1 [ inl same ↦ rw same | inr moved ↦ rw moved ]
]

pub render-authenticated :
    (r : Router) (a : App) → (render r a).main.authenticated ≡ a.main.authenticated
render-authenticated r a =
    ap (λ (s : Main). s.authenticated) (render-main r a) ∙ follow-authenticated r a.main

is_dashboard-home_screen : (b : Bool) → is_dashboard (home_screen b) ≡ b
is_dashboard-home_screen true = refl
is_dashboard-home_screen false = refl

pub mounted_decided :
    (r : Router) (a : App) (b : Bool) → a.main.authenticated ≡ some b → (render r a).mounted ≡ b
mounted_decided r a b e =
    render-mounted r a ∙ ap is_dashboard (follow_ends r a.main b 0 e).0 ∙ is_dashboard-home_screen b

pub mounted_booting :
    (r : Router) (a : App) → a.main.authenticated ≡ none → (render r a).mounted ≡ false
mounted_booting r a e =
    render-mounted r a
    ∙ ap (λ s. is_dashboard (screen r s)) (follow_booting r a.main e)
    ∙ ap is_dashboard (screen_booting r a.main e)

pub render-IsRendered : (r : Router) (a : App) → IsRendered r (render r a)
render-IsRendered r a = record { mounted = (signed_in, is_mounted); shown = shown }
  where
    known : (b : Bool) → (render r a).main.authenticated ≡ some b → a.main.authenticated ≡ some b
    known b e = sym (render-authenticated r a) ∙ e

    shown :
        (b : Bool)
        → (render r a).main.authenticated ≡ some b
        → screen r (render r a).main ≡ home_screen b
    shown b e = ap (screen r) (render-main r a) ∙ (follow_ends r a.main b 0 (known b e)).0

    is_mounted : (render r a).main.authenticated ≡ some true → (render r a).mounted ≡ true
    is_mounted e = mounted_decided r a true (known true e)

    signed_in : (render r a).mounted ≡ true → (render r a).main.authenticated ≡ some true
    signed_in m = elim (Option-cases a.main.authenticated) [
      | inl e ↦ absurd (apart (sym m ∙ mounted_booting r a e))
      | inr (b, e) ↦ render-authenticated r a ∙ e ∙ ap some (sym (mounted_decided r a b e) ∙ m)
    ]
      where
        apart : ¬ (true ≡ false)
        apart h = cc

pub Step-IsRendered : (r : Router) {a b : App} → Step r a b → IsRendered r b
Step-IsRendered r (answered before after c x o e) = rw e (render-IsRendered r _)
Step-IsRendered r (message d m e) = rw e (render-IsRendered r _)
Step-IsRendered r (submits fields urls m d o e) = rw e (render-IsRendered r _)
Step-IsRendered r (signs_in email s e) = rw e (render-IsRendered r _)
Step-IsRendered r (signs_out s e) = rw e (render-IsRendered r _)
Step-IsRendered r (goes l e) = rw e (render-IsRendered r _)
Step-IsRendered r (timeout before after t m o d e) = rw e (render-IsRendered r _)
Step-IsRendered r (flash_timeout before after due o d e) = rw e (render-IsRendered r _)
Step-IsRendered r (closes_error m e) = rw e (render-IsRendered r _)
Step-IsRendered r (closes_flash e) = rw e (render-IsRendered r _)
Step-IsRendered r (wait n e) = rw e (render-IsRendered r _)

-- From a page that is rendered so, in every order of events and after each: the dashboard is
-- mounted exactly while the user is signed in, the route shows it to one who is signed in, and it
-- shows the form to one who is known not to be.
pub Reach-IsRendered : (r : Router) {a b : App} → IsRendered r a → Reach r a b → IsRendered r b
Reach-IsRendered r h here = h
Reach-IsRendered r h (next p s) = Step-IsRendered r s

-- A user who is signed in and goes to a location that is redirected is shown a new instance of the
-- dashboard: its states are the first ones, and it reads the stories and the mode once more.
pub leaving_remounts :
    (r : Router) (a : App) (location path : Text)
    → a.main.authenticated ≡ some true
    → screen r (navigate location a.main) ≡ navigate_to path
    → let b = render r (on_main (navigate location) a) in
      (b.mounted ≡ true)
      × (b.instance_number ≡ suc a.instance_number)
      × (b.page ≡ first_page a.main.feed_items)
      × (b.calls ≡ a.calls ++ mount_items (suc a.instance_number) ∷ mount_mode ∷ [])
unfolding render follow
leaving_remounts r a location path e moved =
    let there = navigate location a.main in
    let back : follow 1 r there ≡ navigate path there = follow_redirect r 0 there path moved in
    let shown : screen r (navigate path there) ≡ dashboard =
      ap (screen r) (sym back) ∙ (follow_ends r there true 0 e).0 in
    elim (Bool-cases a.mounted) [
      | inl m ↦ rw (back, shown, moved, m) (refl, refl, refl, refl)
      | inr m ↦ rw (back, shown, moved, m) (refl, refl, refl, refl)
    ]
