-- ===== src/Feeds.antt =====
-- The data that the server sends to the application and that its components hold. A field that may be
-- null is an `Option`; an identifier of a database row is a number.
use emp_apps.Base.{ℕ, List, Option}
use emp_apps.Base.Text.{Text}
use emp_apps.Client.Json.{Elems}

-- A story, as `GET /feed_items` and the channel send it.
pub record Item : Type 0 where
  pub title : Option Text
  pub source : Option Text
  pub source_url : Option Text
  pub link : Option Text
  pub publish_date : Option Text
  pub description : Option Text

-- An element of the state `pendingRequests` of the dashboard.
pub record PendingRequest : Type 0 where
  pub feed_request_id : ℕ
  pub job_id : Text
  pub urls : List Text
  pub status : Text

-- A message of the channel: `{ feed_request_id, status, items, errors }`. The elements of `errors` are
-- any values: the service sends objects, and the job's own failure a string.
pub record Broadcast : Type 0 where
  pub feed_request_id : ℕ
  pub status : Text
  pub items : Option (List Item)
  pub errors : Option Elems

-- The reply to `POST /feeds`.
pub record SubmitReply : Type 0 where
  pub mode : Text
  pub feed_request_id : ℕ
  pub job_id : Text
  pub status : Text
  pub items : Option (List Item)
