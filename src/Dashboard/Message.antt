-- ===== src/Dashboard/Message.antt =====
-- A message of the channel as it is seen: the active tasks by identifier, the stories by link.
use emp_apps.Base.{
  ℕ, ◌+◌, ◌≡◌, refl, ap, ◌∙◌, ◌||◌, List, [], ◌∷◌, ◌++◌, Option, none, some, inl, inr, Bool-cases,
  ◌==◌, list_eq, nat_eq, option_eq, nat_beq, if◌then◌else◌,
}
use emp_apps.Base.Text.{Text, js, join}
use emp_apps.Client.Json.{Elems, nil, cons, texts, more_texts}
use emp_apps.Client.Laws.{or_option}
use emp_apps.Feeds.{Broadcast}
use emp_apps.Dashboard.{Page, or_empty, show_errors, report, handle_broadcast}
use emp_apps.Dashboard.Items.{story, story-merge_items}
use emp_apps.Dashboard.Pending.{request_of, with_status, request_of-set_status, ids, ids-set_status}
use emp_apps.Dashboard.Handlers.{handle_broadcast_lem, handle_broadcast-report}

-- The banner that a message leaves, by the texts of its errors.
abbrev pub banner : Option (List Text) → Text → Text
banner none error = error
banner (some []) error = error
banner (some (t ∷ ts)) error = js "Some feeds failed to parse: " ++ join (js ", ") (t ∷ ts)

abbrev pub error_texts : Option Elems → Option (List Text)
error_texts none = none
error_texts (some es) = texts es

report-banner :
    (es : Option Elems) (p : Page) → (report es p).error ≡ banner (error_texts es) p.error
unfolding report texts
report-banner none p = refl
report-banner (some nil) p = refl
report-banner (some (cons v vs)) p = of_more _ (texts vs)
  where
    of_more :
        (o : Option Text) (os : Option (List Text))
        → (show_errors (more_texts o os) p).error ≡ banner (more_texts o os) p.error
    of_more none os = refl
    of_more (some t) none = refl
    of_more (some t) (some ts) = refl

-- For every identifier `k` and every link `l`: after a message the request of `k` has the message's
-- status if `k` is the message's identifier, and is as before if not, and no request is added, removed or
-- moved; if the status is "done" or "failed" one timer of the message's identifier is added, due in three
-- seconds; if it is "done" the story of `l` is the one that was held, or the message's first where none
-- was, and if not, the one that was held; the banner lists the texts of the errors if there are errors and
-- all have texts, and is as before if not; the spinner, the open submissions and the clock stay.
pub handle_broadcast-view :
    (d : Broadcast) (p : Page) (k : ℕ) (l : Option Text)
    → let q = handle_broadcast d p in
      (request_of k q.pending_requests ≡ (
        if nat_beq k d.feed_request_id
        then with_status d.status (request_of k p.pending_requests)
        else request_of k p.pending_requests))
      × (ids q.pending_requests ≡ ids p.pending_requests)
      × (q.timers ≡ (
          if d.status == js "done" || d.status == js "failed"
          then p.timers ++ record { due = p.now + 3000; feed_request_id = d.feed_request_id } ∷ []
          else p.timers))
      × (story l q.feed_items ≡ (
          if d.status == js "done"
          then or_option (story l p.feed_items) (story l (or_empty d.items))
          else story l p.feed_items))
      × (q.error ≡ banner (error_texts d.errors) p.error)
      × (q.loading ≡ p.loading)
      × (q.submitting ≡ p.submitting)
      × (q.now ≡ p.now)
handle_broadcast-view d p k l =
    let (reqs, timers, items, loading, submitting, now) = handle_broadcast_lem d p in
    (
      ap (request_of k) reqs
          ∙ request_of-set_status k d.feed_request_id d.status p.pending_requests,
      ap ids reqs ∙ ids-set_status d.feed_request_id d.status p.pending_requests,
      timers,
      ap (story l) items ∙ (elim (Bool-cases (d.status == js "done")) [
        | inl e ↦ rw e (story-merge_items l (or_empty d.items) p.feed_items)
        | inr e ↦ rw e refl
      ]),
      handle_broadcast-report d p ∙ report-banner d.errors p,
      loading,
      submitting,
      now,
    )
