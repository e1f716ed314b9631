-- ===== src/Dashboard/Handlers.antt =====
-- The two handlers, each as a whole, and the order in which a request's messages arrive.
use emp_apps.Base.{
  Option-cases, ℕ, ◌+◌, ◌≡◌, refl, ◌∙◌, Bool, true, false, List, [], ◌∷◌, ◌++◌, Option, none, some,
  inl, inr, if◌then◌else◌, Bool-cases, ◌==◌, list_eq, nat_eq,
}
use emp_apps.Base.Text.{Text, js}
use emp_apps.Client.Json.{Elems, nil, cons, texts}
use emp_apps.Feeds.{Item, Broadcast, SubmitReply}
use emp_apps.Dashboard.{
  Page, Timer, or_empty, merge_items, set_status, schedule, is_final, add_items, report,
  handle_broadcast, accept,
}

-- What the parts of a handler leave alone.
report_frame :
    (e : Option Elems) (p : Page)
    → ((report e p).pending_requests ≡ p.pending_requests)
      × ((report e p).feed_items ≡ p.feed_items)
      × ((report e p).timers ≡ p.timers)
      × ((report e p).loading ≡ p.loading)
      × ((report e p).submitting ≡ p.submitting)
      × ((report e p).now ≡ p.now)
unfolding report
report_frame none p = (refl, refl, refl, refl, refl, refl)
report_frame (some nil) p = (refl, refl, refl, refl, refl, refl)
report_frame (some (cons e es)) p = elim (Option-cases (texts (cons e es))) [
  | inl h ↦ rw (h, report) (refl, refl, refl, refl, refl, refl)
  | inr (ts, h) ↦ rw (h, report) (refl, refl, refl, refl, refl, refl)
]

-- `add_items` sets the stories, and merges no stories where none are sent.
add_items_lem :
    (items : Option (List Item)) (p : Page)
    → add_items items p ≡ record p { feed_items = merge_items (or_empty items) p.feed_items }
unfolding merge_items
add_items_lem none p = refl
add_items_lem (some []) p = refl
add_items_lem (some (i ∷ is)) p = refl

abbrev pub timer : ℕ → Page → Timer
timer id p = record { due = p.now + 3000; feed_request_id = id }

-- The handler before its last statement, for any outcome of its two tests.
filled : Bool → Bool → Broadcast → Page → Page
filled final done d p =
    let marked = record p {
      pending_requests = set_status d.feed_request_id d.status p.pending_requests;
    } in
    let timed = if final then schedule d.feed_request_id marked else marked in
    if done then add_items d.items timed else timed

filled_lem :
    (final done : Bool) (d : Broadcast) (p : Page)
    → let q = filled final done d p in
      (q.pending_requests ≡ set_status d.feed_request_id d.status p.pending_requests)
      × (q.timers ≡ (if final then p.timers ++ timer d.feed_request_id p ∷ [] else p.timers))
      × (q.feed_items
          ≡ (if done then merge_items (or_empty d.items) p.feed_items else p.feed_items))
      × (q.loading ≡ p.loading)
      × (q.submitting ≡ p.submitting)
      × (q.now ≡ p.now)
unfolding filled
filled_lem true true d p = rw add_items_lem (refl, refl, refl, refl, refl, refl)
filled_lem false true d p = rw add_items_lem (refl, refl, refl, refl, refl, refl)
filled_lem true false d p = (refl, refl, refl, refl, refl, refl)
filled_lem false false d p = (refl, refl, refl, refl, refl, refl)

filled-error :
    (final done : Bool) (d : Broadcast) (p : Page) → (filled final done d p).error ≡ p.error
unfolding filled
filled-error true true d p = rw add_items_lem
filled-error false true d p = rw add_items_lem
filled-error true false d p = refl
filled-error false false d p = refl

report_congr :
    (e : Option Elems) (p q : Page) → p.error ≡ q.error → (report e p).error ≡ (report e q).error
unfolding report
report_congr none p q h = h
report_congr (some nil) p q h = h
report_congr (some (cons e es)) p q h = elim (Option-cases (texts (cons e es))) [
  | inl k ↦ rw (k, report) h
  | inr (ts, k) ↦ rw (k, report) refl
]

-- The banner's text is that of `report` alone.
pub handle_broadcast-report :
    (d : Broadcast) (p : Page) → (handle_broadcast d p).error ≡ (report d.errors p).error
unfolding handle_broadcast filled
handle_broadcast-report d p =
    report_congr d.errors (filled (is_final d.status) (d.status == js "done") d p) p
      (filled-error (is_final d.status) (d.status == js "done") d p)

-- One message of the channel, field by field: the requests of its identifier get its status if any
-- is shown; if the status is "done" or "failed" a timer of that identifier is added, due in three
-- seconds; if it is "done" the message's stories are merged into those held; the submissions, the
-- spinner and the clock stay.
pub handle_broadcast_lem :
    (d : Broadcast) (p : Page)
    → let q = handle_broadcast d p in
      (q.pending_requests ≡ set_status d.feed_request_id d.status p.pending_requests)
      × (q.timers
          ≡ (if is_final d.status then p.timers ++ timer d.feed_request_id p ∷ [] else p.timers))
      × (q.feed_items ≡ (
          if d.status == js "done"
          then merge_items (or_empty d.items) p.feed_items
          else p.feed_items))
      × (q.loading ≡ p.loading)
      × (q.submitting ≡ p.submitting)
      × (q.now ≡ p.now)
unfolding handle_broadcast filled
handle_broadcast_lem d p =
    let (a, b, c, e, f, g) = filled_lem (is_final d.status) (d.status == js "done") d p in
    let (a', c', b', e', f', g') =
      report_frame d.errors (filled (is_final d.status) (d.status == js "done") d p) in
    (a' ∙ a, b' ∙ b, c' ∙ c, e' ∙ e, f' ∙ f, g' ∙ g)

-- A reply adds one row with its identifiers and URLs at the end. In the mode "full" the row has
-- the reply's status, and timers and stories stay; in any other mode its status is "done", its
-- removal is due in three seconds, and the reply's stories are merged into those held.
pub accept_lem :
    (urls : List Text) (res : SubmitReply) (p : Page)
    → let q = accept urls res p in
      let full = res.mode == js "full" in
      (q.pending_requests
        ≡ p.pending_requests
          ++ record {
            feed_request_id = res.feed_request_id;
            job_id = res.job_id;
            urls = urls;
            status = if full then res.status else js "done";
          }
            ∷ [])
      × (q.timers ≡ (if full then p.timers else p.timers ++ timer res.feed_request_id p ∷ []))
      × (q.feed_items
          ≡ (if full then p.feed_items else merge_items (or_empty res.items) p.feed_items))
      × (q.now ≡ p.now)
unfolding accept
accept_lem urls res p = elim (Bool-cases (res.mode == js "full")) [
  | inl e ↦ rw e (refl, refl, refl, refl)
  | inr e ↦ rw (e, add_items_lem) (refl, refl, refl, refl)
]
