-- ===== src/App/Clean/Always.antt =====
-- The stories while nobody is signed in, over a whole run.
use emp_apps.Base.{
  ℕ, ◌≡◌, refl, sym, subst, ◌∙◌, Bool, true, false, List, [], ◌∷◌, ◌++◌, Option, none, some, All,
  All-append,
}
use emp_apps.Base.Text.{Text}
use emp_apps.Feeds.{Item}
use emp_apps.Dashboard.{Page, handle_broadcast, submit, fire, close_error}
use emp_apps.MainApp.{Router, initial, clear_flash}
use emp_apps.MainApp.Routes.{view-guards}
use emp_apps.App.{
  App, Call, sign_in, sign_out, submission, on_page, Step, answered, message, submits, signs_in,
  signs_out, goes, timeout, flash_timeout, closes_error, closes_flash, wait, start,
}
use emp_apps.App.Guards.{IsRendered, Step-IsRendered}
use emp_apps.App.Clean.{is_boot, fills, Clean, IsClean}
use emp_apps.App.Clean.Keeps.{
  Clean-signed_in, answer-IsClean, render-IsClean, false-ne-true, Settles,
}

-- A run in which each sign-out is answered while no open call sets the stories.
pub data Run (r : Router) (a : App) : App → Type 0 where
  begin : Run r a a
  event : {b c : App} → Run r a b → (s : Step r b c) → Settles r s → Run r a c

not_booting :
    (o : Option Bool) (items : List Item) (calls : List Call)
    → o ≡ some true
    → Clean o items calls
    → All (λ c. is_boot c ≡ false) calls
not_booting o items calls e h = subst (λ p. Clean p items calls) e h

-- A handler of the mounted dashboard, and a call that the signed-in user has started.
on_page-IsClean :
    (n : ℕ) (f : Page → Page) (a : App)
    → a.main.authenticated ≡ some true
    → IsClean a
    → IsClean (on_page n f a)
unfolding on_page
on_page-IsClean n f a e h =
    Clean-signed_in a.main.authenticated _ a.calls e
      (not_booting a.main.authenticated a.main.feed_items a.calls e h)

call-IsClean :
    (c : Call) (o : Option Bool) (items : List Item) (calls : List Call)
    → is_boot c ≡ false
    → o ≡ some true
    → Clean o items calls
    → Clean o items (calls ++ c ∷ [])
call-IsClean c o items calls n e h =
    Clean-signed_in o items (calls ++ c ∷ []) e
      (All-append (λ d. is_boot d ≡ false) calls (c ∷ []) (not_booting o items calls e h) (n, tt))

sign_in-IsClean :
    (email : Text) (o : Option Bool) (items : List Item) (calls : List Call)
    → o ≡ some false
    → Clean o items calls
    → Clean o items (calls ++ sign_in email ∷ [])
sign_in-IsClean email o items calls e h =
    let (i, k) = subst (λ p. Clean p items calls) e h in
    let more : Clean (some false) items (calls ++ sign_in email ∷ []) =
      (i, All-append (λ d. fills d ≡ false) calls (sign_in email ∷ []) k (refl, tt)) in
    subst (λ p. Clean p items (calls ++ sign_in email ∷ [])) (sym e) more

on_page-authenticated :
    (n : ℕ) (f : Page → Page) (a : App) → (on_page n f a).main.authenticated ≡ a.main.authenticated
unfolding on_page
on_page-authenticated n f a = refl

Step-IsClean :
    (r : Router) {a b : App} (s : Step r a b) → Settles r s → IsRendered r a → IsClean a → IsClean b
Step-IsClean r {a} (answered before after c x o e) k g h = rw e (
    render-IsClean r _ (
      answer-IsClean c x a before after (subst (Clean a.main.authenticated a.main.feed_items) o h)
        k))
Step-IsClean r {a} (message d m e) k g h = rw e (
    render-IsClean r _ (on_page-IsClean a.instance_number (handle_broadcast d) a (g.mounted.0 m) h))
Step-IsClean r {a} (submits fields urls m d o e) k g h =
    let p = on_page a.instance_number (submit urls) a in
    rw e (
      render-IsClean r _ (
        call-IsClean (submission a.instance_number urls) p.main.authenticated p.main.feed_items
          p.calls refl (on_page-authenticated a.instance_number (submit urls) a ∙ g.mounted.0 m)
          (on_page-IsClean a.instance_number (submit urls) a (g.mounted.0 m) h)))
Step-IsClean r {a} (signs_in email v e) k g h = rw e (
    render-IsClean r _ (
      sign_in-IsClean email a.main.authenticated a.main.feed_items a.calls
        (view-guards r a.main false v).0 h))
Step-IsClean r {a} (signs_out v e) k g h = rw e (
    render-IsClean r _
      (call-IsClean sign_out a.main.authenticated a.main.feed_items a.calls refl v h))
Step-IsClean r {a} (goes l e) k g h = rw e (render-IsClean r _ h)
Step-IsClean r {a} (timeout before after t m o d e) k g h = rw e (
    render-IsClean r _ (
      on_page-IsClean a.instance_number (λ p. record (fire t p) { timers = before ++ after }) a
        (g.mounted.0 m) h))
Step-IsClean r {a} (flash_timeout before after due o d e) k g h =
    rw e (render-IsClean r _ (unfold clear_flash in h))
Step-IsClean r {a} (closes_error m e) k g h =
    rw e (render-IsClean r _ (on_page-IsClean a.instance_number close_error a (g.mounted.0 m) h))
Step-IsClean r {a} (closes_flash e) k g h = rw e (render-IsClean r _ (unfold clear_flash in h))
Step-IsClean r {a} (wait n e) k g h = rw e (render-IsClean r _ h)

pub start-IsRendered : (r : Router) (location : Text) → IsRendered r (start location)
unfolding start initial
start-IsRendered r location = record {
  mounted = (λ h. absurd (false-ne-true h), λ h. absurd (none-ne-some h));
  shown = λ b h. absurd (none-ne-some h);
}
  where
    none-ne-some : {b : Bool} → ¬ (◌≡◌ {A = Option Bool} none (some b))
    none-ne-some h = cc

start-IsClean : (location : Text) → IsClean (start location)
unfolding start initial
start-IsClean location = (refl, refl)

Run-IsClean :
    (r : Router) (location : Text) {b : App} → Run r (start location) b → IsRendered r b × IsClean b
Run-IsClean r location begin = (start-IsRendered r location, start-IsClean location)
Run-IsClean r location (event p s k) =
    let (g, h) = Run-IsClean r location p in (Step-IsRendered r s, Step-IsClean r s k g h)

-- From the first page on, in every order of events in which each sign-out is answered while no
-- call whose answer sets the stories is open: while nobody is signed in there are no stories.
pub signed_out-no_stories :
    (r : Router) (location : Text) (b : App)
    → Run r (start location) b
    → b.main.authenticated ≡ some false
    → b.main.feed_items ≡ []
signed_out-no_stories r location b p e =
    let h = (Run-IsClean r location p).1 in (subst (λ o. Clean o b.main.feed_items b.calls) e h).0
