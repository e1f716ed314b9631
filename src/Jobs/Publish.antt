-- ===== src/Jobs/Publish.antt =====
-- `PublishFeedJob#perform` of rss_frontend/app/jobs/publish_feed_job.rb: a request is handed to the worker,
-- or, where the broker cannot be reached, to the service's own REST API. The broker, the token and the
-- HTTP call are parameters, as what they come to.
pub mod Rows
pub mod Fallback
pub mod Late
use emp_apps.Base.{
  not, length, ℕ, ◌≡◌, Bool, true, false, List, [], ◌∷◌, ◌++◌, map, Option, none, some, Eq, ◌==◌,
  list_eq, nat_eq, if◌then◌else◌, nat_beq, contains, Result, ok, err,
}
use emp_apps.Base.Text.{Text, js}
use emp_apps.Client.Json.{Elems, nil, cons, str}
use emp_apps.Feeds.{Broadcast}
use emp_apps.Dashboard.{or_empty}
use emp_apps.Jobs.{
  FeedRequest, Outcome, Rails, Server, J, save_groups, group_by, broadcast, message_of,
}

-- `FeedRequest::STATUSES`
abbrev pub statuses : List Text
statuses = js "pending" ∷ js "processing" ∷ js "done" ∷ js "failed" ∷ []

-- The answer of the REST API.
pub record Reply : Type 0 where
  pub code : Text
  pub body : Result Outcome

abbrev pub failure : FeedRequest → Text → Broadcast
failure r m = record {
  feed_request_id = r.id;
  status = js "failed";
  items = some [];
  errors = some (cons (str m) nil);
}

-- The record in memory: its attributes, and those that were read or written last.
pub record Memory : Type 0 where
  pub row : FeedRequest
  pub saved : FeedRequest

abbrev pub loaded : FeedRequest → Memory
loaded r = record { row = r; saved = r }

abbrev pub changed : Text → Text → Text → Text
changed saved new held = if new == saved then held else new

-- The columns that have changed are written to the row of the record's identifier.
abbrev pub written : Memory → FeedRequest → FeedRequest
written m q =
    if nat_beq q.id m.row.id
    then record q {
      status = changed m.saved.status m.row.status q.status;
      job_id = changed m.saved.job_id m.row.job_id q.job_id;
    }
    else q

-- The two validations of the model that do not ask the database.
abbrev pub invalid : FeedRequest → Option Text
invalid r =
    if not (contains statuses r.status)
    then some (js "Validation failed: Status is not included in the list")
    else if nat_beq (length r.urls) 0
    then some (js "Validation failed: Urls can't be blank")
    else none

-- `refuses` is what else saving a record raises, if it does: the database, or the missing user.
module _ (rails : Rails) (refuses : FeedRequest → Server rails → Option Text) where
  pub record Job : Type 0 where
    pub server : Server rails
    pub memory : Memory

  -- Code of the job that may raise, and what it leaves.
  abbrev pub P : Type 0 → Type 0
  P A = Job → Result A × Job

  abbrev pub then_on : {A B : Type 0} → Result A × Job → (A → P B) → Result B × Job
  then_on (ok a, j) f = f a j
  then_on (err m, j) f = (err m, j)

  infixl 5 ◌>>=◌ ◌>>◌
  abbrev pub ◌>>=◌ : {A B : Type 0} → P A → (A → P B) → P B
  ◌>>=◌ m f j = then_on (m j) f

  abbrev pub ◌>>◌ : {B : Type 0} → P (Unit {0}) → P B → P B
  m >> k = m >>= λ _. k

  abbrev pub await : {A : Type 0} → Result A → P A
  await r j = (r, j)

  abbrev pub on_server : {A : Type 0} → J rails A → P A
  on_server f j = ((f j.server).0, record j { server = (f j.server).1 })

  abbrev pub handled : Result (Unit {0}) × Job → (Text → P (Unit {0})) → Result (Unit {0}) × Job
  handled (ok a, j) h = (ok a, j)
  handled (err m, j) h = h m j

  -- `begin … rescue => e`
  abbrev pub rescue : P (Unit {0}) → (Text → P (Unit {0})) → P (Unit {0})
  rescue m h j = handled (m j) h

  -- What saving a record raises, if it does.
  abbrev pub raises : FeedRequest → Server rails → Option Text
  raises r s = elim (invalid r) [ some m ↦ some m | none ↦ refuses r s ]

  abbrev pub save : Option Text → Memory → Server rails → Result (Unit {0}) × Job
  save (some m) memory s = (err m, record { server = s; memory = memory })
  save none memory s = (
    ok tt,
    record {
      server = record s { requests = map (written memory) s.requests };
      memory = loaded memory.row;
    },
  )

  -- `update!`: the attributes stay assigned where it raises.
  unfoldable pub update : (FeedRequest → FeedRequest) → P (Unit {0})
  update f j =
      let row = f j.memory.row in
      save (raises row j.server) (record j.memory { row = row }) j.server

  -- The branch of a reply with the code 200.
  unfoldable pub store_reply : Outcome → P (Unit {0})
  unfolding update group_by save_groups
  store_reply d j =
      (do
        update (λ r. record r { job_id = d.job_id; status = d.status })
        on_server (save_groups rails j.memory.row.id (group_by (or_empty d.items)))
        on_server (broadcast rails j.memory.row.user_id (message_of j.memory.row d)))
        j

  unfoldable pub read_reply : Reply → P (Unit {0})
  unfolding store_reply
  read_reply reply =
      if reply.code == js "200"
      then (await reply.body >>= store_reply)
      else await (err (js "Go RSS parser fallback failed with HTTP " ++ reply.code))

  unfoldable pub fail_request : Text → P (Unit {0})
  unfolding update
  fail_request m j =
      (do
        update (λ r. record r { status = js "failed" })
        on_server (broadcast rails j.memory.row.user_id (failure j.memory.row m)))
        j

  unfoldable pub execute_fallback : Result Reply → P (Unit {0})
  unfolding read_reply fail_request
  execute_fallback response = rescue (await response >>= read_reply) fail_request

  -- `feed_request` is read when the job starts.
  unfoldable pub perform :
      FeedRequest → Result (Unit {0}) → Result Reply → Server rails → Result (Unit {0}) × Job
  unfolding update execute_fallback
  perform r published response s =
      rescue (await published >> update (λ q. record q { status = js "processing" }))
        (λ m. execute_fallback response) (record { server = s; memory = loaded r })
