-- ===== src/Examples/Jobs.antt =====
-- The jobs on small tables.
use emp_apps.Base.{
  Option, filter, some, false, ◌≡◌, ◌≤◌, refl, true, List, [], ◌∷◌, ◌++◌, none, some, length,
  Result, ok, err, nat_eq,
}
use emp_apps.Base.Text.{Text, js}
use emp_apps.Jobs.{
  Faults, FeedRequest, Outcome, FeedItemRow, Rails, ack, reject, Server, work, claim,
  publish_result, save_groups, save_group, group_by, source_urls, find_by_job, is_open,
}
use emp_apps.Jobs.Delivery.{work-work, work_rejected}
use emp_apps.Jobs.Once.{deliver_all, IsResult, deliver_all_once}
use emp_apps.Jobs.Publish.{Job, loaded, raises, update, perform, execute_fallback}
use emp_apps.Jobs.Publish.Fallback.{IsHeld, Ends, execute_fallback-Ends}
use emp_apps.Jobs.Publish.Late.{processing, perform_reopens}
use emp_apps.Feeds.{SubmitReply}
use emp_apps.Dashboard.{is_final}
use emp_apps.Jobs.Create.{Fresh, array, create, create_finds}
use emp_apps.Examples.Data.{newer}

-- A feed without a URL cannot be created; every other is the first one.
abbrev tables : Rails
tables = record {
  Tables = List FeedItemRow;
  find_or_create_feed =
      λ url title rows. (elim url [ none ↦ err (js "Url can't be blank") | some u ↦ ok 1 ], rows);
  includes_feed = λ request feed rows. true;
  add_feed = λ request feed rows. (ok tt, rows);
  insert_all = λ new rows. (ok tt, rows ++ new);
  deliver = λ user message. ok tt;
}

abbrev request : FeedRequest
request = record {
  id = 7;
  job_id = js "01J";
  user_id = 1;
  urls = js "a" ∷ [];
  status = js "processing";
}

abbrev server : Server tables
server = record { requests = request ∷ []; tables = []; broadcasts = [] }

abbrev good : Outcome
good = record {
  job_id = js "01J";
  status = js "done";
  items = some (record { item = newer; date = none } ∷ []);
  errors = none;
}

abbrev bad : Outcome
bad = record good {
  items = some (record { item = record newer { source_url = none }; date = none } ∷ []);
}

-- Two payloads: the empty one holds a story without the URL of its feed.
abbrev parse : Text → Result Outcome
parse [] = ok bad
parse (c ∷ s) = ok good

abbrev calm : Faults
calm = record { search = none; lock = none }

abbrev offline : Faults
offline = record { search = some (js "DB connection error"); lock = none }

good_is_acked : (work tables parse calm (js "{}") server).0 ≡ ack
unfolding work claim publish_result save_groups save_group group_by source_urls js
good_is_acked = refl

work-work_example :
    (work tables parse offline (js "{}") (work tables parse calm (js "{}") server).1).1
    ≡ (work tables parse calm (js "{}") server).1
unfolding js
work-work_example =
    work-work tables parse (js "{}") good server refl refl calm offline good_is_acked

-- As in the specification of the job: a search that raises rejects; a delivery after it is processed.
after_a_fault :
    ((work tables parse offline (js "{}") server).0 ≡ reject)
    × (length
          (work tables parse calm
            (js "{}")
            (work tables parse offline (js "{}") server).1).1.broadcasts
        ≡ 1)
unfolding work claim publish_result save_groups save_group group_by source_urls js
after_a_fault = (refl, refl)

bad_is_rejected : (work tables parse calm [] server).0 ≡ reject
unfolding work claim publish_result save_groups save_group group_by source_urls js
bad_is_rejected = refl

work_rejected_example :
    let t = (work tables parse calm [] server).1 in
    (t.broadcasts ≡ [])
    × (filter (is_open (js "01J")) t.requests ≡ [])
    × ((work tables parse calm [] t).1 ≡ t)
unfolding js
work_rejected_example =
    work_rejected tables parse [] bad server refl refl calm calm refl refl bad_is_rejected

-- The row of the result that is lost says that the request is done.
lost_is_done :
    (work tables parse calm [] server).1.requests ≡ record request { status = js "done" } ∷ []
unfolding work claim publish_result save_groups save_group group_by source_urls js
lost_is_done = refl

bad-IsResult : IsResult tables parse (js "01J") []
unfolding js
bad-IsResult = record { outcome = bad; parsed = refl; of_job = refl; final = refl }

good-IsResult : IsResult tables parse (js "01J") (js "{}")
unfolding js
good-IsResult = record { outcome = good; parsed = refl; of_job = refl; final = refl }

deliver_all_once_example :
    length
      (deliver_all tables parse
        (js "01J")
        ((calm, js "{}") ∷ (offline, js "{}") ∷ (calm, []) ∷ [])
        server).broadcasts
    ≤ 1
deliver_all_once_example =
    deliver_all_once tables parse (js "01J")
      ((calm, js "{}") ∷ (offline, js "{}") ∷ (calm, []) ∷ []) server
      (good-IsResult, (good-IsResult, (bad-IsResult, tt)))

-- Nothing else is refused.
abbrev accepts : FeedRequest → Server tables → Option Text
accepts r s = none

abbrev held : Job tables accepts
held = record { server = server; memory = loaded request }

held-IsHeld : IsHeld tables accepts (λ u b. refl) request held
held-IsHeld = record { id = refl; user_id = refl; shown = ((λ h. refl), tt) }

execute_fallback-Ends_example :
    Ends tables accepts
      (λ u b. refl)
      request
      server
      (execute_fallback tables accepts (err (js "connection refused")) held)
execute_fallback-Ends_example =
    execute_fallback-Ends tables accepts (λ u b. refl) request (err (js "connection refused")) held
      held-IsHeld

-- The request as the job reads it, and the server once a result has finished it meanwhile.
abbrev waiting : FeedRequest
waiting = record request { status = js "pending" }

abbrev finished : Server tables
finished = (work tables parse calm (js "{}") (record server { requests = waiting ∷ [] })).1

found_finished :
    find_by_job tables (js "01J") finished ≡ some (record waiting { status = js "done" })
unfolding work claim publish_result save_groups save_group group_by source_urls js
found_finished = refl

saves_processing : raises tables accepts (processing tables accepts waiting) finished ≡ none
unfolding js
saves_processing = refl

perform_reopens_example :
    (q : FeedRequest) × (find_by_job tables
        (js "01J")
        (perform tables accepts waiting (ok tt) (err []) finished).1.server
      ≡ some q)
    × (is_open (js "01J") q ≡ true)
perform_reopens_example =
    perform_reopens tables accepts waiting (record waiting { status = js "done" }) (err []) finished
      refl saves_processing found_finished refl

-- A result that is delivered before and after the write is told twice.
told_twice :
    length
      (work tables parse calm
        (js "{}")
        (perform tables accepts waiting (ok tt) (err []) finished).1.server).1.broadcasts
    ≡ 2
unfolding work claim publish_result save_groups save_group group_by source_urls js perform update
told_twice = refl

-- A job that has read the request as processing writes nothing, and the row stays done.
stays_done :
    find_by_job tables
      (js "01J")
      (perform tables accepts request (ok tt) (err []) finished).1.server
    ≡ some (record waiting { status = js "done" })
unfolding work claim publish_result save_groups save_group group_by source_urls js perform update
stays_done = refl

abbrev fresh : Fresh
fresh = record { id = 8; job_id = js "01K"; user_id = 1 }

no_such_job : find_by_job tables (js "01K") server ≡ none
unfolding js
no_such_job = refl

create_finds_example :
    let (reply, t, job) = create tables fresh (array (js "u" ∷ [])) server in
    (r : FeedRequest) × (find_by_job tables (js "01K") t ≡ some r)
    × (job ≡ some r)
    × (is_open (js "01K") r ≡ true)
    × ((res : SubmitReply) × (reply ≡ ok res)
        × (res.feed_request_id ≡ r.id)
        × (is_final res.status ≡ false))
create_finds_example = create_finds tables fresh (js "u") [] server no_such_job
