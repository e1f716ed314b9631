-- ===== src/FeedList.antt =====
-- `FeedList` of app/frontend/components/feeds/FeedList.jsx: the order of the stories, and what the two
-- lists show.
pub mod Order
use emp_apps.Base.{ℕ, Bool, List, [], ◌∷◌, ◌++◌, map, Option, none, some, nat_beq, if◌then◌else◌}
use emp_apps.Base.Text.{Text, js, join}
use emp_apps.Base.Sort.{sort}
use emp_apps.Dates.{time_of}
use emp_apps.Feeds.{Item, PendingRequest}
use emp_apps.FeedItem.{ItemView}
use emp_apps.FeedItem
use emp_apps.Shared.{BadgeView, status_badge}

-- `new Date(item.publish_date)` as a number
abbrev pub item_time : (Text → Option ℕ) → Item → Option ℕ
item_time parse item = time_of parse item.publish_date

unfoldable pub sorted_items : (Text → Option ℕ) → List Item → List Item
sorted_items parse items = sort (item_time parse) items

-- `req.feed_request_id || req.job_id`
pub data Key : Type 0 where
  by_id : ℕ → Key
  by_job : Text → Key

pub record TaskView : Type 0 where
  pub key : Key
  pub label : Text
  pub badge : BadgeView

unfoldable pub task_view : (Text → Option Text) → PendingRequest → TaskView
task_view inherited req = record {
  key = if nat_beq req.feed_request_id 0 then by_job req.job_id else by_id req.feed_request_id;
  label = js "Parsing: " ++ join (js ", ") req.urls;
  badge = status_badge inherited req.status;
}

abbrev unless_empty {ℓ} : {A : Type ℓ} → List A → Option (List A)
unless_empty [] = none
unless_empty (x ∷ xs) = some (x ∷ xs)

-- `none` for the card of active tasks that is not shown, and for the notice "No feeds yet".
pub record FeedListView : Type 0 where
  pub tasks : Option (List TaskView)
  pub stories : Option (List ItemView)

unfoldable pub view :
    (Text → Option ℕ) → (Text → Option Text) → List Item → List PendingRequest → FeedListView
unfolding sorted_items task_view
view parse inherited items pending_requests = record {
  tasks = unless_empty (map (task_view inherited) pending_requests);
  stories = unless_empty (map (FeedItem.view parse) (sorted_items parse items));
}
