-- ===== src/MainApp/Login.antt =====
-- Signing in and out.
use emp_apps.Base.{
  ap, sym, ◌∙◌, inl, inr, ◌+◌, ◌≡◌, ◌≢◌, ◌↔◌, refl, Bool, true, false, List, [], ◌∷◌, ◌++◌, Option,
  some, Result, ok, err,
}
use emp_apps.Base.Text.{Text, js}
use emp_apps.Feeds.{Item}
use emp_apps.Dashboard.{or_empty}
use emp_apps.MainApp.{
  Main, Router, dashboard, screen, follow, navigate, set_flash, set_authenticated, set_email,
  set_items, handle_login, handle_logout,
}
use emp_apps.MainApp.Routes.{follow_ends}

err-ne-ok : {A : Type 0} {a : A} {m : Text} → ¬ (◌≡◌ {A = Result A} (err m) (ok a))
err-ne-ok h = cc

false-ne-true : ¬ (◌≡◌ {A = Option Bool} (some false) (some true))
false-ne-true h = cc

module _ (r : Router) where
  -- The page of a user who is signed in is redirected to the dashboard, if it does not show it.
  shows :
      (s : Main)
      → s.authenticated ≡ some true
      → (location : Text) × (follow 1 r s ≡ navigate location s)
        × (screen r (navigate location s) ≡ dashboard)
  shows s e = elim (follow_ends r s true 0 e).1 [
    | inl same ↦ (s.location, same, ap (screen r) (sym same) ∙ (follow_ends r s true 0 e).0)
    | inr moved ↦ (js "/feeds", moved, ap (screen r) (sym moved) ∙ (follow_ends r s true 0 e).0)
  ]

  module _ (email : Text) (s : Main) where
    -- A sign-in that is rejected changes nothing, and its message reaches the form.
    pub handle_login_refused :
        (m : Text) (feeds : Result (Option (List Item))) (health : Result Text)
        → handle_login r email (err m) feeds health s ≡ (err m, s)
    unfolding handle_login
    handle_login_refused m feeds health = refl

    -- The states with which the stories are awaited.
    abbrev greeted : Main
    greeted = set_flash (js "Signed in successfully") (set_authenticated true (set_email email s))

    -- Once the first call is answered with success the user is signed in, whatever becomes of the
    -- others; the form is told of a success exactly when the other two are answered with success
    -- too, and then the stories, the mode and the location are set and the message's removal is due
    -- in four seconds.
    pub handle_login_accepted :
        (feeds : Result (Option (List Item))) (health : Result Text)
        → let t = handle_login r email (ok tt) feeds health s in
          (t.1.authenticated ≡ some true)
          × (t.1.user_email ≡ email)
          × (t.1.flash_message ≡ js "Signed in successfully")
          × ((t.0 ≡ ok tt) ↔ (
              (items : Option (List Item)) × (m : Text) × (feeds ≡ ok items)
              × (health ≡ ok m)
              × (t.1 ≡ record s {
                authenticated = some true;
                user_email = email;
                flash_message = js "Signed in successfully";
                feed_items = or_empty items;
                mode = m;
                location = js "/feeds";
                flash_timers = s.flash_timers ++ (s.now + 4000) ∷ [];
              })))
    unfolding handle_login
    handle_login_accepted (ok items) (ok m) =
        let (l, e, v) = shows greeted refl in
        let (l', e', v') = shows (set_items (or_empty items) (navigate l greeted)) refl in
        rw (e, e') (refl, refl, refl, (λ _. (items, m, refl, refl, refl), λ _. refl))
    handle_login_accepted (ok items) (err x) =
        let (l, e, v) = shows greeted refl in
        let (l', e', v') = shows (set_items (or_empty items) (navigate l greeted)) refl in
        rw (e, e') (refl, refl, refl, (λ h. absurd (err-ne-ok h), λ h. absurd (err-ne-ok h.3)))
    handle_login_accepted (err x) health =
        let (l, e, v) = shows greeted refl in
        rw e (refl, refl, refl, (λ h. absurd (err-ne-ok h), λ h. absurd (err-ne-ok h.2)))

    -- If the first call is answered with success and the form is told of a failure after all: the user
    -- is signed in and the dashboard shown in place of the form, the message is shown, and no timer
    -- that would remove it is added.
    pub handle_login_half :
        (feeds : Result (Option (List Item))) (health : Result Text)
        → (handle_login r email (ok tt) feeds health s).0 ≢ ok tt
        → let t = (handle_login r email (ok tt) feeds health s).1 in
          (t.authenticated ≡ some true)
          × (screen r t ≡ dashboard)
          × (t.flash_message ≡ js "Signed in successfully")
          × (t.flash_timers ≡ s.flash_timers)
    unfolding handle_login
    handle_login_half (ok items) (ok m) h = absurd (h refl)
    handle_login_half (ok items) (err x) h =
        let (l, e, v) = shows greeted refl in
        let (l', e', v') = shows (set_items (or_empty items) (navigate l greeted)) refl in
        rw (e, e') (refl, v', refl, refl)
    handle_login_half (err x) health h =
        let (l, e, v) = shows greeted refl in rw e (refl, v, refl, refl)

-- Signing out never fails and leaves nothing of the user, whether the server confirms it or not.
pub handle_logout_lem :
    (answer : Result (Unit {0})) (s : Main)
    → handle_logout answer s ≡ (
      ok tt,
      record s {
        authenticated = some false;
        user_email = [];
        feed_items = [];
        flash_message = [];
        location = js "/login";
      },
    )
unfolding handle_logout
handle_logout_lem (ok x) s = refl
handle_logout_lem (err m) s = refl
