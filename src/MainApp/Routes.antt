-- ===== src/MainApp/Routes.antt =====
-- What is shown to whom.
use emp_apps.Base.{
  ℕ, suc, zero, ◌≡◌, ◌⊎◌, refl, ◌∙◌, Bool, true, false, none, some, arith, inl, inr, if◌then◌else◌,
}
use emp_apps.Base.Text.{Text, js}
use emp_apps.MainApp.{
  Main, Router, Screen, login_form, dashboard, navigate_to, route, screen, follow, navigate, view,
  navigation,
}

abbrev pub home : Bool → Text
home b = if b then js "/feeds" else js "/login"

abbrev pub home_screen : Bool → Screen
home_screen b = if b then dashboard else login_form

-- If the dashboard is shown the user is signed in, and there is a navigation with the user's email
-- and the mode; if the form is shown the user is known not to be signed in, and there is no
-- navigation.
pub view-guards :
    (r : Router) (s : Main) (b : Bool)
    → (view r s).screen ≡ home_screen b
    → (s.authenticated ≡ some b)
      × ((view r s).navigation ≡ (if b then some (navigation s.user_email s.mode) else none))
unfolding view screen
view-guards r s true e = (ground arith, ground arith)
view-guards r s false e = (ground arith, ground arith)

module _ (r : Router) where
  route-home : (b : Bool) → route r b (home b) ≡ home_screen b
  route-home true = rw (r.apart, r.self (js "/feeds"))
  route-home false = rw (r.self (js "/login"))

  route-cases :
      (b : Bool) (location : Text)
      → (route r b location ≡ home_screen b) ⊎ (route r b location ≡ navigate_to (home b))
  route-cases true location = ground arith
  route-cases false location = ground arith

  screen-route :
      (s : Main) (b : Bool) → s.authenticated ≡ some b → screen r s ≡ route r b s.location
  unfolding screen
  screen-route s b e = rw e

  follow_at_home :
      (fuel : ℕ) (s : Main) (b : Bool) → screen r s ≡ home_screen b → follow fuel r s ≡ s
  unfolding follow
  follow_at_home zero s b e = refl
  follow_at_home (suc fuel) s true e = rw (e, follow)
  follow_at_home (suc fuel) s false e = rw (e, follow)

  pub follow_redirect :
      (fuel : ℕ) (s : Main) (path : Text)
      → screen r s ≡ navigate_to path
      → follow (suc fuel) r s ≡ follow fuel r (navigate path s)
  unfolding follow
  follow_redirect fuel s path e = rw (e, follow)

  home-screen :
      (s : Main) (b : Bool)
      → s.authenticated ≡ some b
      → screen r (navigate (home b) s) ≡ home_screen b
  home-screen s b e = screen-route (navigate (home b) s) b e ∙ route-home b

  -- Redirects end: with fuel for one, the user stands at the dashboard if signed in, and at the form if
  -- not, and nothing but the location has changed.
  pub follow_ends :
      (s : Main) (b : Bool) (fuel : ℕ)
      → s.authenticated ≡ some b
      → (screen r (follow (suc fuel) r s) ≡ home_screen b)
        × ((follow (suc fuel) r s ≡ s) ⊎ (follow (suc fuel) r s ≡ navigate (home b) s))
  follow_ends s b fuel e = elim (route-cases b s.location) [
    | inl stays ↦
        let here = screen-route s b e ∙ stays in
        rw (follow_at_home (suc fuel) s b here) (here, inl refl)
    | inr goes ↦
        let there = home-screen s b e in
        let step =
          follow_redirect fuel s (home b) (screen-route s b e ∙ goes)
          ∙ follow_at_home fuel (navigate (home b) s) b there in
        rw step (there, inr refl)
  ]
