-- ===== src/App/Clean/Keeps.antt =====
-- Every event keeps the stories empty while nobody is signed in, if no sign-out is answered before the
-- calls that set them.
use emp_apps.Base.{
  ◌&&◌, suc, ◌≡◌, ◌⊎◌, refl, sym, subst, ◌∙◌, Bool, true, false, List, [], ◌∷◌, ◌++◌, Option, none,
  some, inl, inr, Bool-cases, All, All-append, ok, err,
}
use emp_apps.Feeds.{Item}
use emp_apps.MainApp.{Router, screen, follow}
use emp_apps.MainApp.Login.{handle_logout_lem}
use emp_apps.App.{
  App, Call, boot_items, boot_mode, sign_in, sign_in_items, sign_in_mode, sign_out, mount_items,
  mount_mode, submission, Answer, answer, is_dashboard, render, Step, answered,
}
use emp_apps.App.Guards.{render-authenticated, mounted_decided, mounted_booting}
use emp_apps.App.Leaving.{render-feed_items}
use emp_apps.App.Clean.{is_boot, fills, Clean, IsClean, known, signed_in, booting}

-- A sign-out that is answered while no open call sets the stories.
abbrev pub IsSettled : Call → List Call → Type 0
IsSettled sign_out rest = All (λ c. fills c ≡ false) rest
IsSettled _ rest = Unit

-- With the user signed in only the first call is ruled out.
pub Clean-signed_in :
    (o : Option Bool) (items : List Item) (calls : List Call)
    → o ≡ some true
    → All (λ c. is_boot c ≡ false) calls
    → Clean o items calls
Clean-signed_in o items calls e h = subst (λ p. Clean p items calls) (sym e) h

pub answer-IsClean :
    (c : Call) (x : Answer c) (a : App) (before after : List Call)
    → Clean a.main.authenticated a.main.feed_items (before ++ c ∷ after)
    → IsSettled c (before ++ after)
    → IsClean (answer c x (record a { calls = before ++ after }))
unfolding answer
answer-IsClean boot_items (ok items) a before after h s =
    let (none_held, rest) =
      booting before after boot_items a.main.authenticated a.main.feed_items refl h in
    rw rest (refl, tt)
answer-IsClean boot_items (err m) a before after h s =
    let (none_held, rest) =
      booting before after boot_items a.main.authenticated a.main.feed_items refl h in
    rw rest (none_held, tt)
answer-IsClean boot_mode (ok m) a before after h s =
    (known before after boot_mode a.main.authenticated a.main.feed_items refl h).1
answer-IsClean boot_mode (err m) a before after h s =
    (known before after boot_mode a.main.authenticated a.main.feed_items refl h).1
answer-IsClean (sign_in email) (ok x) a before after h s =
    All-append (λ d. is_boot d ≡ false) (before ++ after) (sign_in_items ∷ [])
      (known before after (sign_in email) a.main.authenticated a.main.feed_items refl h).0
      (refl, tt)
answer-IsClean (sign_in email) (err m) a before after h s =
    (known before after (sign_in email) a.main.authenticated a.main.feed_items refl h).1
answer-IsClean sign_in_items (ok items) a before after h s =
    Clean-signed_in a.main.authenticated _ _
      (signed_in before after sign_in_items a.main.authenticated a.main.feed_items refl refl h)
      (All-append (λ d. is_boot d ≡ false) (before ++ after) (sign_in_mode ∷ [])
        (known before after sign_in_items a.main.authenticated a.main.feed_items refl h).0
        (refl, tt))
answer-IsClean sign_in_items (err m) a before after h s =
    (known before after sign_in_items a.main.authenticated a.main.feed_items refl h).1
answer-IsClean sign_in_mode (ok m) a before after h s =
    (known before after sign_in_mode a.main.authenticated a.main.feed_items refl h).1
answer-IsClean sign_in_mode (err m) a before after h s =
    (known before after sign_in_mode a.main.authenticated a.main.feed_items refl h).1
answer-IsClean sign_out x a before after h s = rw handle_logout_lem (refl, s)
answer-IsClean (mount_items n) x a before after h s =
    Clean-signed_in a.main.authenticated _ (before ++ after)
      (signed_in before after (mount_items n) a.main.authenticated a.main.feed_items refl refl h)
      (known before after (mount_items n) a.main.authenticated a.main.feed_items refl h).0
answer-IsClean mount_mode (ok m) a before after h s =
    (known before after mount_mode a.main.authenticated a.main.feed_items refl h).1
answer-IsClean mount_mode (err m) a before after h s =
    (known before after mount_mode a.main.authenticated a.main.feed_items refl h).1
answer-IsClean (submission n urls) x a before after h s =
    Clean-signed_in a.main.authenticated _ (before ++ after)
      (signed_in before after (submission n urls) a.main.authenticated a.main.feed_items refl refl
        h)
      (known before after (submission n urls) a.main.authenticated a.main.feed_items refl h).0

-- A render leaves the calls, or adds those of the dashboard's effect.
abbrev effect : App → List Call
effect a = mount_items (suc a.instance_number) ∷ mount_mode ∷ []

render-calls :
    (r : Router) (a : App)
    → ((render r a).calls ≡ a.calls)
      ⊎ (((render r a).calls ≡ a.calls ++ effect a) × ((render r a).mounted ≡ true))
unfolding render
render-calls r a = elim (Bool-cases (is_dashboard (screen r (follow 1 r a.main)))) [
  | inl e ↦ elim (Bool-cases (a.mounted && is_dashboard (screen r a.main))) [
    | inl m ↦ rw (e, m) (inl refl)
    | inr m ↦ rw (e, m) (inr (refl, refl))
  ]
  | inr e ↦ rw e (inl refl)
]

pub false-ne-true : ¬ (false ≡ true)
false-ne-true h = cc

render-Clean :
    (r : Router) (a : App) (o : Option Bool)
    → a.main.authenticated ≡ o
    → Clean o a.main.feed_items a.calls
    → Clean o a.main.feed_items (render r a).calls
render-Clean r a o e h = elim (render-calls r a) [
  | inl same ↦ subst (Clean o a.main.feed_items) (sym same) h
  | inr (more, m) ↦ mounting o e h more m
]
  where
    mounting :
        (o : Option Bool)
        → a.main.authenticated ≡ o
        → Clean o a.main.feed_items a.calls
        → (render r a).calls ≡ a.calls ++ effect a
        → (render r a).mounted ≡ true
        → Clean o a.main.feed_items (render r a).calls
    mounting none e h more m = absurd (false-ne-true (sym (mounted_booting r a e) ∙ m))
    mounting (some false) e h more m =
        absurd (false-ne-true (sym (mounted_decided r a false e) ∙ m))
    mounting (some true) e h more m =
        subst (All (λ c. is_boot c ≡ false)) (sym more)
          (All-append (λ c. is_boot c ≡ false) a.calls (effect a) h (refl, (refl, tt)))

pub render-IsClean : (r : Router) (a : App) → IsClean a → IsClean (render r a)
render-IsClean r a h =
    rw (render-authenticated r a, render-feed_items r a)
      (render-Clean r a a.main.authenticated refl h)

-- The side condition of a step.
abbrev pub Settles : (r : Router) {a b : App} → Step r a b → Type 0
Settles r (answered before after c x o e) = IsSettled c (before ++ after)
Settles r s = Unit
