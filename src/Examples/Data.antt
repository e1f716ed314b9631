-- ===== src/Examples/Data.antt =====
-- Data that the examples share.
use emp_apps.MainApp.{Router}
use emp_apps.Base.{
  ◌≡◌, refl, false, ==_refl, ℕ, ◌+◌, [], ◌∷◌, Option, none, some, ok, ◌==◌, list_eq, nat_eq,
  if◌then◌else◌,
}
use emp_apps.Base.Text.{Text, js}
use emp_apps.Client.Json.{str, obj, Props, end, prop, nil}
use emp_apps.Client.Handle.{Browser, Response}
use emp_apps.Feeds.{Item, Broadcast, SubmitReply}
use emp_apps.Dates.{epoch}

abbrev pub item : Text → Text → Item
item link date = record {
  title = some (js "Title");
  source = some (js "BBC News");
  source_url = some (js "https://bbc.com/feed");
  link = some link;
  publish_date = some date;
  description = some (js "Story");
}

abbrev pub older : Item
older = item (js "/1") (js "0")

abbrev pub newer : Item
newer = item (js "/2") (js "1")

-- A parser of dates that knows two of them.
abbrev pub parse_date : Text → Option ℕ
parse_date s =
    if s == js "0" then some epoch else if s == js "1" then some (epoch + 86400000) else none

abbrev pub done_7 : Broadcast
done_7 = record {
  feed_request_id = 7;
  status = js "done";
  items = some (newer ∷ []);
  errors = some nil;
}

abbrev pub reply_7 : SubmitReply
reply_7 = record {
  mode = js "full";
  feed_request_id = 7;
  job_id = js "01J";
  status = js "pending";
  items = none;
}

-- A server that refuses everything with an object.
abbrev pub refusal : Props
refusal = prop (js "error") (str (js "Invalid email or password")) end

abbrev pub refused : Response
refused = record { status = 401; content_type = some (js "application/json"); raw = js "{}" }

abbrev pub accepted : Response
accepted = record { status = 200; content_type = none; raw = js "ok" }

abbrev pub browser : Browser
browser = record {
  fetch = λ r. ok accepted;
  parse = λ s. ok (obj refusal);
  stringify = λ v. js "{}";
  not_a_function = js "body.errors.join is not a function";
  not_a_primitive = js "Cannot convert object to primitive value";
}

-- Patterns without parameters match the location that is spelled alike.
pub exact_apart : (js "/login" == js "/feeds") ≡ false
unfolding js
exact_apart = refl

abbrev pub exact : Router
exact = record { matches = λ a b. a == b; self = ==_refl; apart = exact_apart }
