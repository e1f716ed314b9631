-- ===== src/Examples/Feeds.antt =====
-- The list of stories, one story, and the badges.
use emp_apps.Base.{
  ◌+◌, ◌/◌, ◌≡◌, refl, List, [], ◌∷◌, Option, none, some, arith, length, take, leb, get_elem?,
  if◌then◌else◌,
}
use emp_apps.Base.Text.{Text, js, before}
use emp_apps.Base.Sort.{sort}
use emp_apps.Base.Sort.Laws.{IsDescending}
use emp_apps.Base.Sort.Unique.{at}
use emp_apps.Dates.{epoch, time_of, to_iso_string, civil}
use emp_apps.Feeds.{Item}
use emp_apps.FeedItem.{truncate_text, format_date}
use emp_apps.FeedItem.Truncate.{truncate_text_lem, truncate_text-tears_pairs}
use emp_apps.FeedList.{item_time, sorted_items}
use emp_apps.FeedList.Order.{sorted_items_lem, sorted_items_unique}
use emp_apps.Examples.Data.{older, newer, parse_date}

abbrev held : List Item
held = older ∷ newer ∷ []

sorted_held : sorted_items parse_date held ≡ newer ∷ older ∷ []
unfolding sorted_items time_of js sort
sorted_held = refl

sorted_items_lem_example :
    IsDescending (item_time parse_date) (sorted_items parse_date held)
    × (at (item_time parse_date) epoch (sorted_items parse_date held)
        ≡ at (item_time parse_date) epoch held)
unfolding time_of js
sorted_items_lem_example = sorted_items_lem parse_date held epoch (tt, (tt, tt))

abbrev twins : List Item
twins = older ∷ older ∷ []

sorted_items_unique_example : twins ≡ sorted_items parse_date twins
unfolding time_of js
sorted_items_unique_example =
    sorted_items_unique parse_date twins twins (tt, (tt, tt)) (tt, (omega arith, tt), (tt, tt, tt))
      (λ k. refl)

test_date : format_date (λ s. some (epoch + 1779626096000)) (some (js "x")) ≡ js "2026-05-24"
unfolding format_date js to_iso_string before
test_date = refl

epoch_year : (civil (epoch / 86400000)).year ≡ 273970
unfolding civil
epoch_year = refl

abbrev abc : Text
abc = 97 ∷ 98 ∷ 99 ∷ []

truncate_text_lem_example :
    (take 2 (truncate_text 2 (some abc)) ≡ take 2 abc)
    × (length (truncate_text 2 (some abc)) ≡ (if leb (length abc) 2 then length abc else 2 + 3))
truncate_text_lem_example = truncate_text_lem 2 abc

-- An emoji behind one letter, cut in the middle.
abbrev face : Text
face = 97 ∷ 0xd83d ∷ 0xde00 ∷ []

truncate_text-tears_pairs_example :
    (get_elem? (truncate_text 2 (some face)) 1 ≡ some 0xd83d)
    × (get_elem? (truncate_text 2 (some face)) 2 ≡ some b'.')
truncate_text-tears_pairs_example = truncate_text-tears_pairs 1 0xd83d 0xde00 face refl refl

abbrev none_inherited : Text → Option Text
none_inherited s = none
