-- ===== src/Examples/Page.antt =====
-- The dashboard: a request that is submitted, answered, finished and removed.
use emp_apps.Base.{
  ◌+◌, ◌||◌, ◌≡◌, refl, false, [], ◌∷◌, ◌++◌, none, some, arith, nat_beq, if◌then◌else◌, All, ok,
  IsDistinct, ◌==◌, list_eq, nat_eq, option_eq,
}
use emp_apps.Base.Text.{Text, js, join}
use emp_apps.Client.Json.{lookup, Props, end, prop, str, nil}
use emp_apps.Client.Api.{elems}
use emp_apps.Client.Laws.{or_option}
use emp_apps.Feeds.{PendingRequest, SubmitReply}
use emp_apps.Dashboard.{
  Page, first_page, links, merge_items, is_final, handle_broadcast, accept, settle, fire, report,
}
use emp_apps.Dashboard.Items.{
  story, story-merge_items, IsDistinct-merge_items, merge_items-merge_items,
}
use emp_apps.Dashboard.Pending.{request_of, with_status, ids}
use emp_apps.Dashboard.Message.{banner, error_texts, handle_broadcast-view}
use emp_apps.Dashboard.Handlers.{timer, accept_lem}
use emp_apps.Dashboard.Errors.{objects, with_errors, objects_hide_errors, handle_broadcast-error}
use emp_apps.Dashboard.Race.{row, overtaken}
use emp_apps.Dashboard.Stuck.{Run, begin, event, overtaken_for_good}
use emp_apps.Dashboard.Steps.{IsOrderly, Reach, here, next, message, wait, timeout}
use emp_apps.Dashboard.Steps.Orderly.{Reach-IsOrderly, first_page-IsOrderly}
use emp_apps.Dashboard.Steps.Quiet.{Fires, untimed, finished_go}
use emp_apps.Examples.Data.{older, newer, done_7, reply_7}

abbrev empty_page : Page
empty_page = first_page (older ∷ [])

abbrev finished : Page
finished = handle_broadcast done_7 empty_page

finished-Reach : Reach empty_page finished
finished-Reach = next here (message done_7 refl)

Reach-IsOrderly_example : IsOrderly finished
Reach-IsOrderly_example = Reach-IsOrderly finished-Reach (first_page-IsOrderly (older ∷ []))

abbrev shown_7 : PendingRequest
shown_7 = row reply_7 (js "https://bbc.com/feed" ∷ [])

-- A request that is done and is shown until its timer runs.
abbrev lingering : Page
lingering = record empty_page {
  pending_requests = record shown_7 { status = js "done" } ∷ [];
  timers = record { due = 2000; feed_request_id = 7 } ∷ [];
}

lingering-IsOrderly : IsOrderly lingering
unfolding js
lingering-IsOrderly = record { counted = refl; covered = (refl, tt); soon = (omega arith, tt) }

finished_go_example :
    (q : Page) × Fires (record lingering { now = 3000 }) q
    × (q.timers ≡ [])
    × (q.pending_requests ≡ untimed lingering.timers lingering.pending_requests)
    × All (λ r. is_final r.status ≡ false) q.pending_requests
finished_go_example = finished_go lingering lingering-IsOrderly

story-merge_items_example :
    story (some (js "/2")) (merge_items (newer ∷ []) (older ∷ []))
    ≡ or_option (story (some (js "/2")) (older ∷ [])) (story (some (js "/2")) (newer ∷ []))
story-merge_items_example = story-merge_items (some (js "/2")) (newer ∷ []) (older ∷ [])

merge_items-merge_items_example :
    merge_items (newer ∷ []) (merge_items (newer ∷ []) (older ∷ []))
    ≡ merge_items (newer ∷ []) (older ∷ [])
merge_items-merge_items_example = merge_items-merge_items (newer ∷ []) (older ∷ [])

IsDistinct-merge_items_example : IsDistinct (links (merge_items (newer ∷ []) (older ∷ [])))
IsDistinct-merge_items_example =
    IsDistinct-merge_items (newer ∷ []) (older ∷ []) (refl, tt) (refl, tt)

-- One message that names a link twice puts two stories with that link into the list.
twice_in_one_message :
    links (merge_items (newer ∷ newer ∷ []) []) ≡ some (js "/2") ∷ some (js "/2") ∷ []
unfolding merge_items
twice_in_one_message = refl

handle_broadcast-view_example :
    (request_of 8 finished.pending_requests
      ≡ (if nat_beq 8 7 then with_status (js "done") none else none))
    × (ids finished.pending_requests ≡ [])
    × (finished.timers ≡ (
        if js "done" == js "done" || js "done" == js "failed"
        then [] ++ record { due = 0 + 3000; feed_request_id = 7 } ∷ []
        else []))
    × (story (some (js "/2")) finished.feed_items ≡ (
        if js "done" == js "done"
        then or_option (story (some (js "/2")) (older ∷ [])) (story (some (js "/2")) (newer ∷ []))
        else story (some (js "/2")) (older ∷ [])))
    × (finished.error ≡ banner (error_texts (some nil)) [])
    × (finished.loading ≡ false)
    × (finished.submitting ≡ [])
    × (finished.now ≡ 0)
handle_broadcast-view_example = handle_broadcast-view done_7 empty_page 8 (some (js "/2"))

abbrev fallback : SubmitReply
fallback = record reply_7 { mode = js "fallback"; items = some (newer ∷ []) }

accept_lem_example :
    let q = accept [] fallback empty_page in
    let full = fallback.mode == js "full" in
    (q.pending_requests
      ≡ []
        ++ record {
          feed_request_id = 7;
          job_id = js "01J";
          urls = [];
          status = if full then js "pending" else js "done";
        }
          ∷ [])
    × (q.timers ≡ (if full then [] else [] ++ timer 7 empty_page ∷ []))
    × (q.feed_items ≡ (if full then older ∷ [] else merge_items (newer ∷ []) (older ∷ [])))
    × (q.now ≡ 0)
accept_lem_example = accept_lem [] fallback empty_page

overtaken_example :
    (request_of 7 (handle_broadcast done_7 (settle [] (ok reply_7) empty_page)).pending_requests
      ≡ some (record (row reply_7 []) { status = js "done" }))
    × (request_of 7 (settle [] (ok reply_7) (handle_broadcast done_7 empty_page)).pending_requests
        ≡ some (row reply_7 []))
overtaken_example = overtaken done_7 [] reply_7 empty_page refl refl refl

-- The message comes, its timer runs three seconds later, then the reply comes, and an hour passes.
abbrev waited : Page
waited = record finished { now = finished.now + 3000 }

abbrev cleared : Page
cleared = record (fire (timer 7 empty_page) waited) { timers = [] }

cleared-Run : Run 7 finished cleared
unfolding handle_broadcast js report
cleared-Run =
    event (event begin (wait 3000 refl) tt)
      (timeout [] [] (timer 7 empty_page) refl (omega arith) refl) tt

abbrev answered_late : Page
answered_late = settle [] (ok reply_7) cleared

abbrev hour : Page
hour = record answered_late { now = answered_late.now + 3600000 }

overtaken_for_good_example : request_of 7 hour.pending_requests ≡ some (row reply_7 [])
overtaken_for_good_example =
    overtaken_for_good 7 done_7 [] reply_7 empty_page cleared hour refl refl refl refl cleared-Run
      refl (event begin (wait 3600000 refl) tt)

abbrev url_error : Text → Props
url_error m = prop (js "url") (str (js "/1")) (prop (js "error") (str m) end)

objects_hide_errors_example :
    (handle_broadcast
      (with_errors (objects (url_error (js "timeout") ∷ [])) done_7)
      empty_page).error
    ≡ (handle_broadcast
        (with_errors (objects (url_error (js "no feed") ∷ [])) done_7)
        empty_page).error
unfolding js lookup
objects_hide_errors_example =
    objects_hide_errors done_7 empty_page (url_error (js "timeout") ∷ [])
      (url_error (js "no feed") ∷ []) refl (refl, tt) (refl, tt)

handle_broadcast-error_example :
    ((handle_broadcast (with_errors (elems (js "timeout" ∷ [])) done_7) empty_page).error
      ≡ js "Some feeds failed to parse: " ++ join (js ", ") (js "timeout" ∷ []))
    × ((handle_broadcast (with_errors nil done_7) empty_page).error ≡ [])
    × ((handle_broadcast (record done_7 { errors = none }) empty_page).error ≡ [])
handle_broadcast-error_example = handle_broadcast-error done_7 empty_page (js "timeout") []
