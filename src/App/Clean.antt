-- ===== src/App/Clean.antt =====
-- The stories while nobody is signed in.
pub mod Keeps
pub mod Always
use emp_apps.Base.{
  ℕ, ◌+◌, ◌≡◌, ◌≢◌, refl, sym, ap, subst, ◌∙◌, Bool, true, false, not, List, [], ◌∷◌, ◌++◌, Option,
  none, some, arith, inl, inr, Bool-cases, Option-cases, if◌then◌else◌, All, All-append,
  All-map_of_imp, Result, ok, err,
}
use emp_apps.Base.Text.{Text, js}
use emp_apps.Feeds.{Item}
use emp_apps.MainApp.{
  Main, Router, Screen, login_form, dashboard, screen, follow, view, handle_logout, clear_flash,
}
use emp_apps.MainApp.Login.{handle_logout_lem}
use emp_apps.MainApp.Routes.{view-guards}
use emp_apps.App.{
  App, Call, boot_items, boot_mode, sign_in, sign_in_items, sign_in_mode, sign_out, mount_items,
  mount_mode, submission, Answer, on_page, answer, is_dashboard, render, Step, answered, message,
  submits, signs_in, signs_out, goes, timeout, flash_timeout, wait, start,
}
use emp_apps.App.Guards.{
  IsRendered, render-IsRendered, render-main, render-authenticated, render-mounted, mounted_decided,
  mounted_booting, Step-IsRendered,
}
use emp_apps.App.Leaving.{render-feed_items}

abbrev pub is_boot : Call → Bool
is_boot boot_items = true
is_boot _ = false

-- The calls whose answers set the stories.
abbrev pub fills : Call → Bool
fills boot_items = true
fills sign_in_items = true
fills (mount_items n) = true
fills (submission n urls) = true
fills _ = false

-- Before the first answer there is nothing; while nobody is signed in there are no stories, and no open
-- call will bring any; the first call is answered once.
abbrev pub Clean : Option Bool → List Item → List Call → Type 0
Clean none items calls = (items ≡ []) × (calls ≡ boot_items ∷ [])
Clean (some false) items calls = (items ≡ []) × All (λ c. fills c ≡ false) calls
Clean (some true) items calls = All (λ c. is_boot c ≡ false) calls

abbrev pub IsClean : App → Type 0
IsClean a = Clean a.main.authenticated a.main.feed_items a.calls

All-at {ℓ} :
    {A : Type ℓ} (P : A → Type 0) (before after : List A) (x : A)
    → All P (before ++ x ∷ after)
    → P x × All P (before ++ after)
All-at P [] after x (h, hs) = (h, hs)
All-at P (b ∷ before) after x (h, hs) = let (k, ks) = All-at P before after x hs in (k, (h, ks))

not_boot_of_not_fills : (c : Call) → fills c ≡ false → is_boot c ≡ false
not_boot_of_not_fills boot_items h = h
not_boot_of_not_fills c h = refl

-- The only call of the first page is the first one.
only_boot :
    (before after : List Call) (c : Call) → before ++ c ∷ after ≡ boot_items ∷ [] → is_boot c ≡ true
only_boot [] after c h = cc
only_boot (b ∷ []) after c h = absurd (longer h)
  where
    longer : ¬ (b ∷ c ∷ after ≡ boot_items ∷ [])
    longer h = cc
only_boot (b ∷ d ∷ before) after c h = absurd (longer h)
  where
    longer : ¬ (b ∷ d ∷ (before ++ c ∷ after) ≡ boot_items ∷ [])
    longer h = cc

true-ne-false : ¬ (true ≡ false)
true-ne-false h = cc

module _ (before after : List Call) (c : Call) where
  abbrev whole : List Call
  whole = before ++ c ∷ after

  -- What an answered call leaves, if it is not the first.
  known :
      (o : Option Bool) (items : List Item)
      → is_boot c ≡ false
      → Clean o items whole
      → All (λ d. is_boot d ≡ false) (before ++ after) × Clean o items (before ++ after)
  known none items n (i, e) = absurd (true-ne-false (sym (only_boot before after c e) ∙ n))
  known (some false) items n (i, h) =
      let rest = (All-at (λ d. fills d ≡ false) before after c h).1 in
      (
        All-map_of_imp (λ d. fills d ≡ false) (λ d. is_boot d ≡ false) (before ++ after)
            not_boot_of_not_fills rest,
        (i, rest),
      )
  known (some true) items n h =
      let rest = (All-at (λ d. is_boot d ≡ false) before after c h).1 in (rest, rest)

  -- A call that sets the stories is open for a user who is signed in.
  signed_in :
      (o : Option Bool) (items : List Item)
      → is_boot c ≡ false
      → fills c ≡ true
      → Clean o items whole
      → o ≡ some true
  signed_in none items n f (i, e) = absurd (true-ne-false (sym (only_boot before after c e) ∙ n))
  signed_in (some false) items n f (i, h) =
      absurd (true-ne-false (sym f ∙ (All-at (λ d. fills d ≡ false) before after c h).0))
  signed_in (some true) items n f h = refl

  -- The first call is open on the first page alone.
  booting :
      (o : Option Bool) (items : List Item)
      → is_boot c ≡ true
      → Clean o items whole
      → (items ≡ []) × (before ++ after ≡ [])
  booting none items b (i, e) = (i, rest before e)
    where
      rest : (bs : List Call) → bs ++ c ∷ after ≡ boot_items ∷ [] → bs ++ after ≡ []
      rest [] e = cc
      rest (x ∷ []) e = absurd (longer e)
        where
          longer : ¬ (x ∷ c ∷ after ≡ boot_items ∷ [])
          longer h = cc
      rest (x ∷ y ∷ bs) e = absurd (longer e)
        where
          longer : ¬ (x ∷ y ∷ (bs ++ c ∷ after) ≡ boot_items ∷ [])
          longer h = cc
  booting (some false) items b (i, h) =
      absurd (true-ne-false (fills_boot c b ∙ (All-at (λ d. fills d ≡ false) before after c h).0))
    where
      fills_boot : (d : Call) → is_boot d ≡ true → true ≡ fills d
      fills_boot boot_items h = refl
      fills_boot d h = absurd (true-ne-false (sym h))
  booting (some true) items b h =
      absurd (true-ne-false (sym b ∙ (All-at (λ d. is_boot d ≡ false) before after c h).0))
