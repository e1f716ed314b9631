-- ===== src/Jobs.antt =====
-- The server's side of a request that is finished: `ProcessFeedResultJob#work` of
-- rss_frontend/app/jobs/process_feed_result_job.rb. The table of requests is
-- modelled; the tables of feeds and stories, the message broker and the cable are parameters. What was
-- written before an exception stays written, since nothing opens a transaction.
pub mod Lock
pub mod Quiet
pub mod Delivery
pub mod Once
pub mod Publish
pub mod Create
use emp_apps.Base.{
  ℕ, ◌≡◌, Bool, true, false, not, ◌&&◌, ◌||◌, List, [], ◌∷◌, ◌++◌, map, Option, none, some, Eq,
  ◌==◌, list_eq, nat_eq, option_eq, if◌then◌else◌, nat_beq, filter, find, length, contains, Result,
  ok, err,
}
use emp_apps.Base.Text.{Text, js}
use emp_apps.Client.Json.{Elems, nil, cons, str}
use emp_apps.Feeds.{Item, Broadcast}
use emp_apps.Dashboard.{or_empty, is_final}

-- A row of the table `feed_requests`.
pub record FeedRequest : Type 0 where
  pub id : ℕ
  pub job_id : Text
  pub user_id : ℕ
  pub urls : List Text
  pub status : Text

-- A story of a result, with the other spelling of its date.
pub record ResultItem : Type 0 where
  pub item : Item
  pub date : Option Text

-- What the worker sends of a job.
pub record Outcome : Type 0 where
  pub job_id : Text
  pub status : Text
  pub items : Option (List ResultItem)
  pub errors : Option Elems

-- An element of `feed_items_data`, without its two times.
pub record FeedItemRow : Type 0 where
  pub feed_id : ℕ
  pub item : Item

-- ActiveRecord on the tables of feeds and stories, and ActionCable; each may raise.
pub record Rails : Type 1 where
  pub Tables : Type 0
  pub find_or_create_feed : Option Text → Text → Tables → Result ℕ × Tables
  pub includes_feed : ℕ → ℕ → Tables → Bool
  pub add_feed : ℕ → ℕ → Tables → Result (Unit {0}) × Tables
  pub insert_all : List FeedItemRow → Tables → Result (Unit {0}) × Tables
  pub deliver : ℕ → Broadcast → Result (Unit {0})

-- What the queries of the table of requests raise in one delivery, if they do: the search and the lock.
-- A query that raises writes nothing.
pub record Faults : Type 0 where
  pub search : Option Text
  pub lock : Option Text

-- What `work` tells the broker.
pub data Verdict : Type 0 where
  ack reject : Verdict

abbrev pub source_name : List ResultItem → Text
source_name [] = js "RSS Source"
source_name (i ∷ is) = elim i.item.source [ none ↦ js "RSS Source" | some s ↦ s ]

abbrev pub or_option : Option Text → Option Text → Option Text
or_option none b = b
or_option (some a) b = some a

abbrev pub row_of : ℕ → ResultItem → FeedItemRow
row_of feed i = record {
  feed_id = feed;
  item = record i.item { publish_date = or_option i.item.publish_date i.date };
}

-- The keys of `group_by`, in the order of their first stories.
unfoldable pub source_urls : List ResultItem → List (Option Text)
source_urls [] = []
source_urls (i ∷ is) =
    i.item.source_url ∷ filter (λ u. not (u == i.item.source_url)) (source_urls is)

unfoldable pub group_by : List ResultItem → List (Option Text × List ResultItem)
unfolding source_urls
group_by items = map (λ u. (u, filter (λ i. i.item.source_url == u) items)) (source_urls items)

-- `where(job_id: …, status: ["pending", "processing"])`
abbrev pub is_open : Text → FeedRequest → Bool
is_open job r = (r.job_id == job) && ((r.status == js "pending") || (r.status == js "processing"))

abbrev pub message_of : FeedRequest → Outcome → Broadcast
message_of r d = record {
  feed_request_id = r.id;
  status = d.status;
  items = some (map (λ i. i.item) (or_empty d.items));
  errors = some (elim d.errors [ none ↦ nil | some es ↦ es ]);
}

module _ (rails : Rails) where
  pub record Server : Type 0 where
    pub requests : List FeedRequest
    pub tables : rails.Tables
    pub broadcasts : List (ℕ × Broadcast)

  -- Code that may raise, and what it leaves.
  abbrev pub J : Type 0 → Type 0
  J A = Server → Result A × Server

  abbrev pub bind : {A B : Type 0} → Result A × Server → (A → J B) → Result B × Server
  bind (ok a, s) f = f a s
  bind (err m, s) f = (err m, s)

  infixl 5 ◌>>=◌ ◌>>◌
  abbrev pub ◌>>=◌ : {A B : Type 0} → J A → (A → J B) → J B
  ◌>>=◌ m f s = bind (m s) f

  abbrev pub ◌>>◌ : {B : Type 0} → J (Unit {0}) → J B → J B
  m >> k = m >>= λ _. k

  abbrev pub on_tables : {A : Type 0} → (rails.Tables → Result A × rails.Tables) → J A
  on_tables f s = ((f s.tables).0, record s { tables = (f s.tables).1 })

  abbrev pub attach : ℕ → ℕ → J (Unit {0})
  attach request feed s =
      if rails.includes_feed request feed s.tables
      then (ok tt, s)
      else on_tables (rails.add_feed request feed) s

  -- The body of the block of `each`.
  unfoldable pub save_group : ℕ → Option Text × List ResultItem → J (Unit {0})
  save_group request (url, items) = do
    feed ← on_tables (rails.find_or_create_feed url (source_name items))
    attach request feed
    on_tables (rails.insert_all (map (row_of feed) items))

  unfoldable pub save_groups : ℕ → List (Option Text × List ResultItem) → J (Unit {0})
  unfolding save_group
  save_groups request [] s = (ok tt, s)
  save_groups request (g ∷ gs) s = (save_group request g >> save_groups request gs) s

  -- `ActionCable.server.broadcast`
  abbrev pub broadcast : ℕ → Broadcast → J (Unit {0})
  broadcast user d s = elim (rails.deliver user d) [
    | ok _ ↦ (ok tt, record s { broadcasts = s.broadcasts ++ (user, d) ∷ [] })
    | err m ↦ (err m, s)
  ]

  abbrev pub find_by_job : Text → Server → Option FeedRequest
  find_by_job job s = find (λ r. r.job_id == job) s.requests

  -- `update_all(status: …)`: how many rows are updated, and the table.
  unfoldable pub claim : Text → Text → Server → ℕ × Server
  claim job status s = (
    length (filter (is_open job) s.requests),
    record s {
      requests = map (λ r. if is_open job r then record r { status = status } else r) s.requests;
    },
  )

  -- `work` behind the lock.
  unfoldable pub publish_result : FeedRequest → Outcome → J (Unit {0})
  unfolding group_by save_groups
  publish_result r d = do
    save_groups r.id (group_by (or_empty d.items))
    broadcast r.user_id (message_of r d)

  -- The end of `work`, and its `rescue`.
  abbrev pub verdict : Result (Unit {0}) × Server → Verdict × Server
  verdict (ok _, s) = (ack, s)
  verdict (err m, s) = (reject, s)

  abbrev pub process_claimed : FeedRequest → Outcome → ℕ × Server → Verdict × Server
  process_claimed r d (updated, s) =
      if nat_beq updated 0 then (ack, s) else verdict (publish_result r d s)

  -- `work` from the lock on.
  abbrev pub locked : Option Text → FeedRequest → Outcome → Server → Verdict × Server
  locked none r d s = process_claimed r d (claim d.job_id d.status s)
  locked (some m) r d s = (reject, s)

  -- `work` behind the search.
  abbrev pub process : Faults → Option FeedRequest → Outcome → Server → Verdict × Server
  process f none d s = (ack, s)
  process f (some r) d s = if is_final r.status then (ack, s) else locked f.lock r d s

  abbrev pub searched : Option Text → Faults → Outcome → Server → Verdict × Server
  searched none f d s = process f (find_by_job d.job_id s) d s
  searched (some m) f d s = (reject, s)

  abbrev pub work_on : Faults → Result Outcome → Server → Verdict × Server
  work_on f (err m) s = (reject, s)
  work_on f (ok d) s = searched f.search f d s

  -- `JSON.parse` is a parameter.
  unfoldable pub work : (Text → Result Outcome) → Faults → Text → Server → Verdict × Server
  unfolding claim publish_result
  work parse f payload s = work_on f (parse payload) s
