-- ===== src/FeedItem.antt =====
-- `FeedItem` of app/frontend/components/feeds/FeedItem.jsx: the two helpers and what a story shows.
pub mod Truncate
pub mod Format
use emp_apps.Base.{
  ℕ, Bool, List, [], ◌∷◌, ◌++◌, Option, none, some, leb, if◌then◌else◌, length, take,
}
use emp_apps.Base.Text.{Text, truthy, before, js}
use emp_apps.Dates.{to_iso_string}
use emp_apps.Feeds.{Item}

-- The default of `maxLength`.
abbrev pub max_length : ℕ
max_length = 250

unfoldable pub truncate_text : ℕ → Option Text → Text
truncate_text max none = []
truncate_text max (some t) =
    if truthy t then if leb (length t) max then t else take max t ++ js "..." else []

-- A `Date` that is not `NaN` has an ISO text, so nothing is thrown in the `try`.
abbrev pub date_or_text : Text → Option ℕ → Text
date_or_text s none = s
date_or_text s (some t) = before b'T' (to_iso_string t)

unfoldable pub format_date : (Text → Option ℕ) → Option Text → Text
format_date parse none = []
format_date parse (some s) = if truthy s then date_or_text s (parse s) else []

pub record ItemView : Type 0 where
  pub source : Option Text
  pub date : Text
  pub title : Option Text
  pub description : Text
  pub href : Option Text
  pub source_url : Option Text

-- A `source_url` that is null or empty is not shown.
abbrev pub shown : Option Text → Option Text
shown none = none
shown (some s) = if truthy s then some s else none

unfoldable pub view : (Text → Option ℕ) → Item → ItemView
unfolding format_date truncate_text
view parse item = record {
  source = item.source;
  date = format_date parse item.publish_date;
  title = item.title;
  description = truncate_text max_length item.description;
  href = item.link;
  source_url = shown item.source_url;
}
