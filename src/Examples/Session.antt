-- ===== src/Examples/Session.antt =====
-- Signing in and out, and the routes.
use emp_apps.Base.{
  ◌+◌, ◌≡◌, ◌↔◌, ◌⊎◌, refl, true, false, List, [], ◌∷◌, ◌++◌, Option, none, some, Result, ok, err,
  list_eq, nat_eq,
}
use emp_apps.Base.Text.{Text, js}
use emp_apps.Feeds.{Item}
use emp_apps.Dashboard.{or_empty}
use emp_apps.MainApp.{
  Main, initial, handle_login, screen, view, follow, navigate, navigation, dashboard, login_form,
}
use emp_apps.Examples.Data.{exact}
use emp_apps.MainApp.Login.{handle_login_accepted, handle_login_half}
use emp_apps.MainApp.Routes.{view-guards, follow_ends}

abbrev opened : Main
opened = initial (js "/login")

abbrev signed_out : Main
signed_out = record {
  authenticated = some false;
  user_email = [];
  feed_items = [];
  mode = js "full";
  flash_message = [];
  location = js "/anywhere";
  flash_timers = [];
  now = 0;
}

abbrev signed_in : Main
signed_in = record signed_out { authenticated = some true; location = js "/feeds" }

view-signed_in : (view exact signed_in).screen ≡ dashboard
unfolding view js
view-signed_in = refl

view-guards_example :
    (signed_in.authenticated ≡ some true)
    × ((view exact signed_in).navigation ≡ some (navigation [] (js "full")))
view-guards_example = view-guards exact signed_in true view-signed_in

follow_ends_example :
    (screen exact (follow 3 exact signed_out) ≡ login_form)
    × ((follow 3 exact signed_out ≡ signed_out)
        ⊎ (follow 3 exact signed_out ≡ navigate (js "/login") signed_out))
follow_ends_example = follow_ends exact signed_out false 2 refl

handle_login_accepted_example :
    let r = handle_login exact (js "a@b") (ok tt) (ok none) (ok (js "full")) signed_out in
    (r.1.authenticated ≡ some true)
    × (r.1.user_email ≡ js "a@b")
    × (r.1.flash_message ≡ js "Signed in successfully")
    × ((r.0 ≡ ok tt) ↔ (
        (items : Option (List Item)) × (m : Text) × (◌≡◌ {A = Result (Option (List Item))}
          (ok none)
          (ok items))
        × (◌≡◌ {A = Result Text} (ok (js "full")) (ok m))
        × (r.1 ≡ record signed_out {
          authenticated = some true;
          user_email = js "a@b";
          flash_message = js "Signed in successfully";
          feed_items = or_empty items;
          mode = m;
          location = js "/feeds";
          flash_timers = [] ++ (0 + 4000) ∷ [];
        })))
handle_login_accepted_example =
    handle_login_accepted exact (js "a@b") signed_out (ok none) (ok (js "full"))

half_fails :
    ¬ ((handle_login exact (js "a@b") (ok tt) (err (js "500")) (err []) signed_out).0 ≡ ok tt)
unfolding handle_login
half_fails e = cc

handle_login_half_example :
    let t = (handle_login exact (js "a@b") (ok tt) (err (js "500")) (err []) signed_out).1 in
    (t.authenticated ≡ some true)
    × (screen exact t ≡ dashboard)
    × (t.flash_message ≡ js "Signed in successfully")
    × (t.flash_timers ≡ [])
handle_login_half_example =
    handle_login_half exact (js "a@b") signed_out (err (js "500")) (err []) half_fails
