-- ===== src/Dashboard/Race.antt =====
-- The message that ends a request may overtake the reply to its submission: the job runs as soon as the
-- controller has queued it, and the reply and the channel are two connections.
use emp_apps.Base.{ℕ, ◌≡◌, refl, ◌∙◌, true, List, none, some, arith, ◌==◌, list_eq, nat_eq, ok}
use emp_apps.Base.Text.{Text, js}
use emp_apps.Feeds.{PendingRequest, Broadcast, SubmitReply}
use emp_apps.Dashboard.{Page, handle_broadcast, settle}
use emp_apps.Dashboard.Handlers.{handle_broadcast_lem, accept_lem}
use emp_apps.Dashboard.Pending.{request_of, request_of-set_status, request_of-append_absent}

-- The row that a reply adds.
abbrev pub row : SubmitReply → List Text → PendingRequest
row res urls = record {
  feed_request_id = res.feed_request_id;
  job_id = res.job_id;
  urls = urls;
  status = res.status;
}

module _ (d : Broadcast) (urls : List Text) (res : SubmitReply) (p : Page)
    (same : d.feed_request_id ≡ res.feed_request_id) (full : res.mode ≡ js "full")
    (new : request_of res.feed_request_id p.pending_requests ≡ none) where
  is_full : (res.mode == js "full") ≡ true
  is_full = ((list_eq {A = ℕ}).same_iff res.mode (js "full")).1 full

  -- A reply to a page that does not show the request adds its row, and no timer.
  added :
      (q : Page)
      → request_of res.feed_request_id q.pending_requests ≡ none
      → (request_of res.feed_request_id (settle urls (ok res) q).pending_requests
          ≡ some (row res urls))
        × ((settle urls (ok res) q).timers ≡ q.timers)
  unfolding settle
  added q h =
      let (reqs, timers, items, now) = accept_lem urls res q in
      (
        rw (reqs, is_full)
            (request_of-append_absent res.feed_request_id q.pending_requests (row res urls) h refl),
        timers ∙ rw is_full,
      )

  missed : request_of res.feed_request_id (handle_broadcast d p).pending_requests ≡ none
  missed = rw ((handle_broadcast_lem d p).0, request_of-set_status, new) (ground arith)

  -- For a reply in the mode "full" whose request is not shown yet, and a message for the same
  -- request: with the reply first the row has the status of the message; with the message first
  -- that status is lost, and the row is that of the reply.
  pub overtaken :
      (request_of res.feed_request_id (handle_broadcast d (settle urls (ok res) p)).pending_requests
        ≡ some (record (row res urls) { status = d.status }))
      × (request_of res.feed_request_id
            (settle urls (ok res) (handle_broadcast d p)).pending_requests
          ≡ some (row res urls))
  overtaken = (
    rw ((handle_broadcast_lem d (settle urls (ok res) p)).0, request_of-set_status, (added p new).0)
        (ground arith),
    (added (handle_broadcast d p) missed).0,
  )
