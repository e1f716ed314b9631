-- ===== src/Examples/App.antt =====
-- The application from its first page on.
use emp_apps.Base.{suc, ◌++◌, ◌≡◌, refl, true, false, [], ◌∷◌, some, ok, err}
use emp_apps.Base.Text.{js}
use emp_apps.MainApp.{navigate, navigate_to, initial, screen, view, follow, handle_logout}
use emp_apps.Dashboard.{first_page, load}
use emp_apps.App.{
  on_main, App, boot_items, boot_mode, sign_in, sign_out, mount_items, answer, render, start, Step,
  answered, signs_in, signs_out, call, mount_mode, on_page, Reach, here, next,
}
use emp_apps.App.Guards.{IsRendered, Reach-IsRendered, leaving_remounts}
use emp_apps.App.Leaving.{late_stories}
use emp_apps.App.Clean.Always.{Run, begin, event, signed_out-no_stories, start-IsRendered}
use emp_apps.Examples.Data.{older, exact}

abbrev first : App
first = start (js "/login")

abbrev mine : App
mine = render exact (answer boot_items (ok (some (older ∷ []))) (record first { calls = [] }))

-- The first answer signs in; the dashboard is mounted and reads the stories once more.
to_mine : Step exact first mine
unfolding start
to_mine = answered [] [] boot_items (ok (some (older ∷ []))) refl refl

-- The user signs out before the second reading is answered.
abbrev leaving : App
leaving = render exact (call sign_out mine)

to_leaving : Step exact mine leaving
unfolding start initial answer render js screen view follow handle_logout on_page load
to_leaving = signs_out refl refl

abbrev left : App
left = render exact (
    answer sign_out (ok tt)
      (record leaving { calls = boot_mode ∷ mount_items 1 ∷ mount_mode ∷ [] }))

to_left : Step exact leaving left
unfolding start initial answer render js screen view follow handle_logout on_page load
to_left = answered (boot_mode ∷ mount_items 1 ∷ mount_mode ∷ []) [] sign_out (ok tt) refl refl

abbrev late : App
late = render exact (
    answer (mount_items 1) (ok (some (older ∷ [])))
      (record left { calls = boot_mode ∷ mount_mode ∷ [] }))

to_late : Step exact left late
unfolding start initial answer render js screen view follow handle_logout on_page load
to_late =
    answered (boot_mode ∷ []) (mount_mode ∷ []) (mount_items 1) (ok (some (older ∷ []))) refl refl

abbrev entering : App
entering = render exact (call (sign_in (js "other@example.com")) late)

to_entering : Step exact late entering
unfolding start initial answer render js screen view follow handle_logout on_page load
to_entering = signs_in (js "other@example.com") refl refl

abbrev other : App
other = render exact (
    answer (sign_in (js "other@example.com")) (ok tt)
      (record entering { calls = boot_mode ∷ mount_mode ∷ [] }))

to_other : Step exact entering other
unfolding start initial answer render js screen view follow handle_logout on_page load
to_other =
    answered (boot_mode ∷ mount_mode ∷ []) [] (sign_in (js "other@example.com")) (ok tt) refl refl

other-Reach : Reach exact first other
other-Reach =
    next (next (next (next (next (next here to_mine) to_leaving) to_left) to_late) to_entering)
      to_other

shown_to_other :
    (other.mounted ≡ true)
    × (other.main.user_email ≡ js "other@example.com")
    × (other.main.feed_items ≡ older ∷ [])
unfolding start initial answer render js screen view follow handle_logout on_page load
shown_to_other = (refl, refl, refl)

Reach-IsRendered_example : IsRendered exact other
Reach-IsRendered_example = Reach-IsRendered exact (start-IsRendered exact (js "/login")) other-Reach

late_stories_example :
    let left = render exact (answer sign_out (err (js "offline")) mine) in
    let late = render exact (answer (mount_items 1) (ok (some (older ∷ []))) left) in
    let other = render exact (answer (sign_in (js "other@example.com")) (ok tt) late) in
    (left.main.feed_items ≡ [])
    × (late.main.authenticated ≡ some false)
    × (late.main.feed_items ≡ older ∷ [])
    × (other.main.authenticated ≡ some true)
    × (other.main.feed_items ≡ older ∷ [])
late_stories_example =
    late_stories exact (err (js "offline")) 1 (older ∷ []) (js "other@example.com") mine

-- The user signs out once the second reading is answered.
abbrev read : App
read = render exact (
    answer (mount_items 1) (ok (some (older ∷ [])))
      (record mine { calls = boot_mode ∷ mount_mode ∷ [] }))

to_read : Step exact mine read
unfolding start initial answer render js screen view follow handle_logout on_page load
to_read =
    answered (boot_mode ∷ []) (mount_mode ∷ []) (mount_items 1) (ok (some (older ∷ []))) refl refl

abbrev parting : App
parting = render exact (call sign_out read)

to_parting : Step exact read parting
unfolding start initial answer render js screen view follow handle_logout on_page load
to_parting = signs_out refl refl

abbrev parted : App
parted =
    render exact (answer sign_out (ok tt) (record parting { calls = boot_mode ∷ mount_mode ∷ [] }))

to_parted : Step exact parting parted
unfolding start initial answer render js screen view follow handle_logout on_page load
to_parted = answered (boot_mode ∷ mount_mode ∷ []) [] sign_out (ok tt) refl refl

parted-Run : Run exact first parted
unfolding to_mine to_read to_parting to_parted
parted-Run =
    event (event (event (event begin to_mine tt) to_read tt) to_parting tt) to_parted
      (refl, (refl, tt))

parted_out : parted.main.authenticated ≡ some false
unfolding start initial answer render js screen view follow handle_logout on_page load
parted_out = refl

signed_out-no_stories_example : parted.main.feed_items ≡ []
signed_out-no_stories_example =
    signed_out-no_stories exact (js "/login") parted parted-Run parted_out

mine_in : mine.main.authenticated ≡ some true
unfolding start initial answer render js screen view follow handle_logout on_page load
mine_in = refl

mine_moved : screen exact (navigate (js "/login") mine.main) ≡ navigate_to (js "/feeds")
unfolding start initial answer render js screen view follow handle_logout on_page load
mine_moved = refl

leaving_remounts_example :
    let b = render exact (on_main (navigate (js "/login")) mine) in
    (b.mounted ≡ true)
    × (b.instance_number ≡ suc mine.instance_number)
    × (b.page ≡ first_page mine.main.feed_items)
    × (b.calls ≡ mine.calls ++ mount_items (suc mine.instance_number) ∷ mount_mode ∷ [])
leaving_remounts_example =
    leaving_remounts exact mine (js "/login") (js "/feeds") mine_in mine_moved
