-- ===== src/App.antt =====
-- `App` of app/frontend/components/App.jsx: the main application with the dashboard that it mounts, and
-- the calls of the API that are not answered. The fields of the two forms are not part of it: what a
-- form submits is an argument of its event. Functions that wait for several calls are cut at each
-- `await`, so that anything may happen between two parts.
pub mod Guards
pub mod Leaving
pub mod Clean
use emp_apps.Base.{
  ℕ, suc, ◌+◌, ◌≤◌, ◌≡◌, Bool, true, false, ◌&&◌, List, [], ◌∷◌, ◌++◌, Option, none, some, nat_beq,
  if◌then◌else◌, drop, Result, ok, err,
}
use emp_apps.Base.Text.{Text, js}
use emp_apps.FeedForm
use emp_apps.Feeds.{Item, Broadcast, SubmitReply}
use emp_apps.Dashboard.{
  Page, Timer, first_page, or_empty, handle_broadcast, submit, settle, load, fire, close_error,
}
use emp_apps.MainApp.{
  Main, Router, Screen, dashboard, login_form, screen, follow, initial, navigate, clear_flash,
  set_email, set_authenticated, set_flash, set_items, set_mode, schedule_flash, handle_logout, view,
}

-- A promise that somebody waits for. The dashboard's are those of one mounted instance.
pub data Call : Type 0 where
  boot_items boot_mode : Call
  sign_in : (email : Text) → Call
  sign_in_items sign_in_mode sign_out : Call
  mount_items : (instance_number : ℕ) → Call
  mount_mode : Call
  submission : (instance_number : ℕ) → (urls : List Text) → Call

-- What each is answered with.
abbrev pub Answer : Call → Type 0
Answer boot_items = Result (Option (List Item))
Answer boot_mode = Result Text
Answer (sign_in email) = Result (Unit {0})
Answer sign_in_items = Result (Option (List Item))
Answer sign_in_mode = Result Text
Answer sign_out = Result (Unit {0})
Answer (mount_items n) = Result (Option (List Item))
Answer mount_mode = Result Text
Answer (submission n urls) = Result SubmitReply

-- The stories are those of `main`; `page` has the states of the dashboard's last instance.
pub record App : Type 0 where
  pub main : Main
  pub page : Page
  pub instance_number : ℕ
  pub mounted : Bool
  pub calls : List Call

abbrev pub on_main : (Main → Main) → App → App
on_main f a = record a { main = f a.main }

abbrev pub call : Call → App → App
call c a = record a { calls = a.calls ++ c ∷ [] }

-- The dashboard's states with the stories and the clock of the main application.
abbrev pub page_of : App → Page
page_of a = record a.page { feed_items = a.main.feed_items; now = a.main.now }

-- A handler of an instance of the dashboard. Setters of an instance that is gone do nothing, but for
-- `setFeedItems`, which is the parent's.
unfoldable pub on_page : ℕ → (Page → Page) → App → App
on_page n f a =
    let q = f (page_of a) in
    record a {
      main = set_items q.feed_items a.main;
      page = if a.mounted && nat_beq n a.instance_number then q else a.page;
    }

-- The part of `handleFeedSubmit` behind its `await`; the submission that is answered is the oldest.
abbrev pub settle_page : List Text → Result SubmitReply → Page → Page
settle_page urls r p = record (settle urls r p) { submitting = drop 1 p.submitting }

-- What follows each `await` and each `then` or `catch`.
unfoldable pub answer : (c : Call) → Answer c → App → App
unfolding on_page
answer boot_items (ok items) a = call boot_mode (
    on_main
      (λ s.
        set_email (js "user@example.com") (set_authenticated true (set_items (or_empty items) s)))
      a)
answer boot_items (err m) a = on_main (set_authenticated false) a
answer boot_mode (ok m) a = on_main (set_mode m) a
answer boot_mode (err e) a = a
answer (sign_in email) (ok _) a = call sign_in_items (
    on_main
      (λ s. set_flash (js "Signed in successfully") (set_authenticated true (set_email email s))) a)
answer (sign_in email) (err m) a = a
answer sign_in_items (ok items) a = call sign_in_mode (on_main (set_items (or_empty items)) a)
answer sign_in_items (err m) a = a
answer sign_in_mode (ok m) a =
    on_main (λ s. schedule_flash (navigate (js "/feeds") (set_mode m s))) a
answer sign_in_mode (err e) a = a
answer sign_out r a = on_main (λ s. (handle_logout r s).1) a
answer (mount_items n) r a = on_page n (load r) a
answer mount_mode (ok m) a = on_main (set_mode m) a
answer mount_mode (err e) a = a
answer (submission n urls) r a = on_page n (settle_page urls r) a

abbrev is_dashboard : Screen → Bool
is_dashboard dashboard = true
is_dashboard _ = false

-- The first render of the dashboard and its effect.
abbrev pub mount : App → App
mount a = record a {
  page = first_page a.main.feed_items;
  instance_number = suc a.instance_number;
  mounted = true;
  calls = a.calls ++ mount_items (suc a.instance_number) ∷ mount_mode ∷ [];
}

-- A render: the redirects, and the dashboard that comes or goes with its route. A redirect is rendered in
-- place of the dashboard, so that one who is sent back to it is shown a new instance.
unfoldable pub render : Router → App → App
render r a =
    let b = on_main (follow 1 r) a in
    if is_dashboard (screen r b.main)
    then if a.mounted && is_dashboard (screen r a.main) then b else mount b
    else record b { mounted = false }

unfoldable pub start : Text → App
start location = record {
  main = initial location;
  page = first_page [];
  instance_number = 0;
  mounted = false;
  calls = boot_items ∷ [];
}

-- What can happen next, each followed by a render.
pub data Step (r : Router) (a b : App) : Type 0 where
  answered :
      (before after : List Call) (c : Call) (x : Answer c)
      → a.calls ≡ before ++ c ∷ after
      → b ≡ render r (answer c x (record a { calls = before ++ after }))
      → Step r a b
  message :
      (d : Broadcast)
      → a.mounted ≡ true
      → b ≡ render r (on_page a.instance_number (handle_broadcast d) a)
      → Step r a b
  submits :
      (fields urls : List Text)
      → a.mounted ≡ true
      → (FeedForm.view a.page.loading fields).submit_disabled ≡ false
      → FeedForm.handle_submit fields ≡ some urls
      → b
        ≡ render r
            (call (submission a.instance_number urls) (on_page a.instance_number (submit urls) a))
      → Step r a b
  signs_in :
      (email : Text)
      → (view r a.main).screen ≡ login_form
      → b ≡ render r (call (sign_in email) a)
      → Step r a b
  signs_out : a.main.authenticated ≡ some true → b ≡ render r (call sign_out a) → Step r a b
  goes : (location : Text) → b ≡ render r (on_main (navigate location) a) → Step r a b
  timeout :
      (before after : List Timer) (t : Timer)
      → a.mounted ≡ true
      → a.page.timers ≡ before ++ t ∷ after
      → t.due ≤ a.main.now
      → b
        ≡ render r
            (on_page a.instance_number (λ p. record (fire t p) { timers = before ++ after }) a)
      → Step r a b
  flash_timeout :
      (before after : List ℕ) (due : ℕ)
      → a.main.flash_timers ≡ before ++ due ∷ after
      → due ≤ a.main.now
      → b ≡ render r (on_main (λ s. record (clear_flash s) { flash_timers = before ++ after }) a)
      → Step r a b
  closes_error :
      a.mounted ≡ true → b ≡ render r (on_page a.instance_number close_error a) → Step r a b
  closes_flash : b ≡ render r (on_main clear_flash a) → Step r a b
  wait : (n : ℕ) → b ≡ render r (on_main (λ s. record s { now = s.now + n }) a) → Step r a b

pub data Reach (r : Router) (a : App) : App → Type 0 where
  here : Reach r a a
  next : {b c : App} → Reach r a b → Step r b c → Reach r a c
