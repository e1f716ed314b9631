-- ===== src/MainApp.antt =====
-- `MainApp` and `Navigation` of app/frontend/components/App.jsx: the states, the handlers of signing in
-- and out with the awaited calls as arguments, the first effect, and what is shown. The route patterns
-- are matched by react-router, which is the parameter `Router`.
pub mod Login
pub mod Routes
use emp_apps.Base.{
  ℕ, suc, zero, ◌+◌, ◌≡◌, Bool, true, false, List, [], ◌∷◌, ◌++◌, Option, none, some, Eq, ◌==◌,
  list_eq, nat_eq, if◌then◌else◌, Result, ok, err,
}
use emp_apps.Base.Text.{Text, js, truthy}
use emp_apps.Feeds.{Item}
use emp_apps.Dashboard.{or_empty}

-- `authenticated` is null until the first effect has its answer. `flash_timers` are the calls of
-- `setTimeout` that will clear the message, by the time at which they are due.
pub record Main : Type 0 where
  pub authenticated : Option Bool
  pub user_email : Text
  pub feed_items : List Item
  pub mode : Text
  pub flash_message : Text
  pub location : Text
  pub flash_timers : List ℕ
  pub now : ℕ

unfoldable pub initial : Text → Main
initial location = record {
  authenticated = none;
  user_email = [];
  feed_items = [];
  mode = js "full";
  flash_message = [];
  location = location;
  flash_timers = [];
  now = 0;
}

-- An asynchronous function: its own result, and the states that it leaves.
abbrev pub M : Type 0 → Type 0
M A = Main → Result A × Main

infixl 5 ◌>>=◌ ◌>>◌
abbrev pub ◌>>=◌ : {A B : Type 0} → M A → (A → M B) → M B
◌>>=◌ m f s = elim ((m s).0) [ ok a ↦ f a (m s).1 | err e ↦ (err e, (m s).1) ]

abbrev pub ◌>>◌ : {B : Type 0} → M (Unit {0}) → M B → M B
m >> k = m >>= λ _. k

-- `await` of a promise that settles so.
abbrev pub await : {A : Type 0} → Result A → M A
await r s = (r, s)

abbrev pub modify : (Main → Main) → M (Unit {0})
modify f s = (ok tt, f s)

abbrev pub set_email : Text → Main → Main
set_email email s = record s { user_email = email }

abbrev pub set_authenticated : Bool → Main → Main
set_authenticated b s = record s { authenticated = some b }

abbrev pub set_flash : Text → Main → Main
set_flash m s = record s { flash_message = m }

abbrev pub set_items : List Item → Main → Main
set_items items s = record s { feed_items = items }

abbrev pub set_mode : Text → Main → Main
set_mode m s = record s { mode = m }

abbrev pub navigate : Text → Main → Main
navigate path s = record s { location = path }

-- `setTimeout(() => setFlashMessage(''), 4000)`
abbrev pub schedule_flash : Main → Main
schedule_flash s = record s { flash_timers = s.flash_timers ++ (s.now + 4000) ∷ [] }

-- The empty `catch`.
abbrev pub caught : M (Unit {0}) → M (Unit {0})
caught m s = (ok tt, (m s).1)

unfoldable pub handle_logout : Result (Unit {0}) → M (Unit {0})
handle_logout answer = do
  caught (await answer)
  modify (set_authenticated false)
  modify (set_email [])
  modify (set_items [])
  modify (set_flash [])
  modify (navigate (js "/login"))

-- The callback of a flash timer, and the button of the message.
unfoldable pub clear_flash : Main → Main
clear_flash s = set_flash [] s

-- How react-router matches a location against the path of a route that holds no parameter.
pub record Router : Type 0 where
  pub matches : Text → Text → Bool
  pub self : (path : Text) → matches path path ≡ true
  pub apart : matches (js "/login") (js "/feeds") ≡ false

pub data Screen : Type 0 where
  loading login_form dashboard : Screen
  navigate_to : Text → Screen

abbrev pub is_true : Option Bool → Bool
is_true (some b) = b
is_true none = false

-- The three routes, for a value of `authenticated` that is not null.
abbrev pub route : Router → Bool → Text → Screen
route r signed_in location =
    if r.matches (js "/login") location
    then if signed_in then navigate_to (js "/feeds") else login_form
    else if r.matches (js "/feeds") location
    then if signed_in then dashboard else navigate_to (js "/login")
    else navigate_to (if signed_in then js "/feeds" else js "/login")

unfoldable pub screen : Router → Main → Screen
screen r s = elim s.authenticated [ none ↦ loading | some b ↦ route r b s.location ]

-- The badge of the mode and the user with the button "Sign out", where they are shown.
pub record NavigationView : Type 0 where
  pub mode_label : Option Text
  pub user_email : Option Text

unfoldable pub navigation : Text → Text → NavigationView
navigation user_email mode = record {
  mode_label =
      if truthy mode
      then some (if mode == js "full" then js "Live Mode" else js "Fallback Mode")
      else none;
  user_email = if truthy user_email then some user_email else none;
}

pub record MainView : Type 0 where
  pub navigation : Option NavigationView
  pub flash : Option Text
  pub screen : Screen

unfoldable pub view : Router → Main → MainView
unfolding screen navigation
view r s = elim s.authenticated [
  | none ↦ record { navigation = none; flash = none; screen = loading }
  | some b ↦ record {
    navigation = if b then some (navigation s.user_email s.mode) else none;
    flash = if truthy s.flash_message then some s.flash_message else none;
    screen = screen r s;
  }
]

-- A rendered `Navigate` sets the location, and the routes are rendered again. `fuel` bounds how often.
unfoldable pub follow : ℕ → Router → Main → Main
follow zero r s = s
follow (suc fuel) r s = elim (screen r s) [
  | navigate_to path ↦ follow fuel r (navigate path s)
  | _ ↦ s
]

-- `await` of a promise for which the states have been set: they are rendered before it settles.
abbrev pub await_rendered : {A : Type 0} → Router → Result A → M A
await_rendered r x s = (x, follow 1 r s)

unfoldable pub handle_login :
    Router → Text → Result (Unit {0}) → Result (Option (List Item)) → Result Text → M (Unit {0})
unfolding follow
handle_login r email login feed_data health = do
  await login
  modify (set_email email)
  modify (set_authenticated true)
  modify (set_flash (js "Signed in successfully"))
  items ← await_rendered r feed_data
  modify (set_items (or_empty items))
  m ← await_rendered r health
  modify (set_mode m)
  modify (navigate (js "/feeds"))
  modify schedule_flash
