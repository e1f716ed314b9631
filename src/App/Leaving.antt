-- ===== src/App/Leaving.antt =====
-- Answers that come after the user has signed out.
use emp_apps.Base.{
  ℕ, ◌≡◌, refl, ap, ◌∙◌, ◌⊎◌, Bool, true, false, List, [], none, some, inl, inr, Option-cases,
  Result, ok,
}
use emp_apps.Base.Text.{Text}
use emp_apps.Feeds.{Item}
use emp_apps.Dashboard.{load}
use emp_apps.MainApp.{Main, Router, follow}
use emp_apps.MainApp.Login.{handle_logout_lem}
use emp_apps.MainApp.Routes.{follow_ends}
use emp_apps.App.{App, sign_out, mount_items, sign_in, answer, render}
use emp_apps.App.Guards.{render-main, render-authenticated, follow_booting}

-- A render changes no story.
pub render-feed_items : (r : Router) (a : App) → (render r a).main.feed_items ≡ a.main.feed_items
render-feed_items r a =
    ap (λ (s : Main). s.feed_items) (render-main r a) ∙ followed (Option-cases a.main.authenticated)
  where
    followed :
        (a.main.authenticated ≡ none) ⊎ ((b : Bool) × (a.main.authenticated ≡ some b))
        → (follow 1 r a.main).feed_items ≡ a.main.feed_items
    followed (inl e) = rw (follow_booting r a.main e)
    followed (inr (b, e)) = elim (follow_ends r a.main b 0 e).1 [
      | inl same ↦ rw same
      | inr moved ↦ rw moved
    ]

signed_out :
    (x : Result (Unit {0})) (a : App)
    → ((answer sign_out x a).main.authenticated ≡ some false)
      × ((answer sign_out x a).main.feed_items ≡ [])
unfolding answer
signed_out x a = rw handle_logout_lem (refl, refl)

loaded :
    (n : ℕ) (items : List Item) (a : App)
    → ((answer (mount_items n) (ok (some items)) a).main.authenticated ≡ a.main.authenticated)
      × ((answer (mount_items n) (ok (some items)) a).main.feed_items ≡ items)
unfolding answer load
loaded n items a = (refl, refl)

accepted :
    (email : Text) (a : App)
    → ((answer (sign_in email) (ok tt) a).main.authenticated ≡ some true)
      × ((answer (sign_in email) (ok tt) a).main.feed_items ≡ a.main.feed_items)
unfolding answer
accepted email a = (refl, refl)

-- Once signing out is answered, with success or not, there are no stories. If a dashboard's
-- reading of the stories is answered after it, nobody is signed in and its stories are held, and
-- once a sign-in with any email is answered after that, the user is signed in and the same stories
-- are held.
pub late_stories :
    (r : Router) (x : Result (Unit {0})) (n : ℕ) (items : List Item) (email : Text) (a : App)
    → let left = render r (answer sign_out x a) in
      let late = render r (answer (mount_items n) (ok (some items)) left) in
      let other = render r (answer (sign_in email) (ok tt) late) in
      (left.main.feed_items ≡ [])
      × (late.main.authenticated ≡ some false)
      × (late.main.feed_items ≡ items)
      × (other.main.authenticated ≡ some true)
      × (other.main.feed_items ≡ items)
late_stories r x n items email a =
    let left = render r (answer sign_out x a) in
    let late = render r (answer (mount_items n) (ok (some items)) left) in
    let late_items =
      render-feed_items r (answer (mount_items n) (ok (some items)) left)
      ∙ (loaded n items left).1 in
    (
      render-feed_items r (answer sign_out x a) ∙ (signed_out x a).1,
      render-authenticated r (answer (mount_items n) (ok (some items)) left)
          ∙ (loaded n items left).0
          ∙ render-authenticated r (answer sign_out x a)
          ∙ (signed_out x a).0,
      late_items,
      render-authenticated r (answer (sign_in email) (ok tt) late) ∙ (accepted email late).0,
      render-feed_items r (answer (sign_in email) (ok tt) late)
          ∙ (accepted email late).1
          ∙ late_items,
    )
