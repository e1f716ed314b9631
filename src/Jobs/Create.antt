-- ===== src/Jobs/Create.antt =====
-- `FeedsController#create` of rss_frontend/app/controllers/api/v1/feeds_controller.rb: the request that the
-- two jobs work on. The ULID, the row's identifier and the queue of jobs are parameters; a database that
-- refuses the row, which the base controller answers with an
-- error, is left out.
use emp_apps.Base.{
  ℕ, ◌≡◌, refl, true, false, List, [], ◌∷◌, ◌++◌, Option, none, some, arith, ◌==◌, list_eq, nat_eq,
  find, Result, ok, err,
}
use emp_apps.Base.Text.{Text, js}
use emp_apps.Feeds.{SubmitReply}
use emp_apps.Dashboard.{is_final}
use emp_apps.Dashboard.Steps.{IsReply}
use emp_apps.Jobs.{FeedRequest, Rails, Server, find_by_job, is_open}

-- `params[:urls]`
pub data UrlsParam : Type 0 where
  missing : UrlsParam
  scalar : Text → UrlsParam
  array : List Text → UrlsParam

-- The new row's identifier and ULID, and the user who is signed in.
pub record Fresh : Type 0 where
  pub id : ℕ
  pub job_id : Text
  pub user_id : ℕ

module _ (rails : Rails) where
  abbrev pub refusal : Text
  refusal = js "Urls parameter must be a non-empty array"

  abbrev pub new_request : Fresh → List Text → FeedRequest
  new_request f urls = record {
    id = f.id;
    job_id = f.job_id;
    user_id = f.user_id;
    urls = urls;
    status = js "pending";
  }

  abbrev pub reply_of : Fresh → SubmitReply
  reply_of f = record {
    mode = js "full";
    feed_request_id = f.id;
    job_id = f.job_id;
    status = js "pending";
    items = none;
  }

  -- The answer, the server, and the request for which a `PublishFeedJob` is queued.
  unfoldable pub create :
      Fresh → UrlsParam → Server rails → Result SubmitReply × Server rails × Option FeedRequest
  create f missing s = (err refusal, s, none)
  create f (scalar u) s = (err refusal, s, none)
  create f (array []) s = (err refusal, s, none)
  create f (array (u ∷ urls)) s = (
    ok (reply_of f),
    record s { requests = s.requests ++ new_request f (u ∷ urls) ∷ [] },
    some (new_request f (u ∷ urls)),
  )

  find-append :
      (job : Text) (rs : List FeedRequest) (r : FeedRequest)
      → find (λ q. q.job_id == job) rs ≡ none
      → (r.job_id == job) ≡ true
      → find (λ q. q.job_id == job) (rs ++ r ∷ []) ≡ some r
  find-append job [] r h k = rw k refl
  find-append job (q ∷ rs) r h k = ground (arith, find-append job rs r)

  create-IsReply : (f : Fresh) (p : UrlsParam) (s : Server rails) → IsReply (create f p s).0
  unfolding create js
  create-IsReply f missing s = tt
  create-IsReply f (scalar u) s = tt
  create-IsReply f (array []) s = tt
  create-IsReply f (array (u ∷ urls)) s = λ h. refl

  -- A submission of at least one URL under a ULID that no row has queues the job of a new row, which
  -- the results of that ULID find open; the reply has the row's identifier and is not final.
  pub create_finds :
      (f : Fresh) (u : Text) (urls : List Text) (s : Server rails)
      → find_by_job rails f.job_id s ≡ none
      → let (reply, t, job) = create f (array (u ∷ urls)) s in
        (r : FeedRequest) × (find_by_job rails f.job_id t ≡ some r)
        × (job ≡ some r)
        × (is_open f.job_id r ≡ true)
        × ((res : SubmitReply) × (reply ≡ ok res)
            × (res.feed_request_id ≡ r.id)
            × (is_final res.status ≡ false))
  unfolding create js
  create_finds f u urls s h =
      let same = ((list_eq {A = ℕ}).same_iff f.job_id f.job_id).1 refl in
      (
        new_request f (u ∷ urls),
        find-append f.job_id s.requests (new_request f (u ∷ urls)) h same,
        refl,
        rw same refl,
        (reply_of f, refl, refl, refl),
      )
