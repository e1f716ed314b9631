-- ===== src/FeedList/Order.antt =====
-- The stories in the list.
use emp_apps.Base.{ℕ, ◌≡◌, List, Option, All}
use emp_apps.Base.Text.{Text}
use emp_apps.Base.Sort.Laws.{IsTime, IsDescending, sort-IsDescending, sort_stable}
use emp_apps.Base.Sort.Unique.{at, sort_unique}
use emp_apps.Feeds.{Item}
use emp_apps.FeedList.{item_time, sorted_items}

module _ (parse : Text → Option ℕ) (items : List Item) where
  -- If every date can be read, the stories stand latest first, and those of one time in the order in
  -- which they were held.
  pub sorted_items_lem :
      (k : ℕ)
      → All (λ item. IsTime (item_time parse item)) items
      → IsDescending (item_time parse) (sorted_items parse items)
        × (at (item_time parse) k (sorted_items parse items) ≡ at (item_time parse) k items)
  unfolding sorted_items
  sorted_items_lem k h =
      (sort-IsDescending (item_time parse) items h, sort_stable (item_time parse) k items)

  -- If every date can be read, no other order is latest first and keeps that of stories of one time: the
  -- result does not depend on how the engine sorts.
  pub sorted_items_unique :
      (other : List Item)
      → All (λ item. IsTime (item_time parse item)) items
      → IsDescending (item_time parse) other
      → ((k : ℕ) → at (item_time parse) k other ≡ at (item_time parse) k items)
      → other ≡ sorted_items parse items
  unfolding sorted_items
  sorted_items_unique other h d s = sort_unique (item_time parse) items other h d s
