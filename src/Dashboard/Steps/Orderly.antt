-- ===== src/Dashboard/Steps/Orderly.antt =====
-- The invariant of the dashboard, kept by every step.
use emp_apps.Base.{
  ℕ, suc, ◌+◌, ◌≤◌, ◌≡◌, refl, sym, ap, subst, ◌∙◌, Bool, true, false, List, [], ◌∷◌, ◌++◌, map,
  Option, ◌==◌, list_eq, nat_eq, Result, ok, err, arith, length, length-append, All-append,
  if◌then◌else◌,
}
use emp_apps.Base.Text.{Text, js}
use emp_apps.FeedForm.{view, is_submit_disabled}
use emp_apps.Feeds.{Item, Broadcast, SubmitReply}
use emp_apps.Dashboard.{
  Page, Timer, is_final, handle_broadcast, submit, settle, load, fire, close_error, update_status,
  accept, first_page,
}
use emp_apps.Dashboard.Pending.{set_status-map}
use emp_apps.Dashboard.Handlers.{handle_broadcast_lem, accept_lem, timer}
use emp_apps.Dashboard.Steps.{
  IsReply, Step, message, send, answer, loaded, timeout, wait, close, Reach, here, next, is_covered,
  IsOrderly,
}
use emp_apps.Dashboard.Steps.Timers.{
  IsCovered, IsCovered-more, contains_last, IsCovered-update, IsCovered-timeout, IsSoon,
  IsSoon-later, IsSoon-schedule, All-without, length-without,
}

-- A message.
message-IsOrderly : (d : Broadcast) (p : Page) → IsOrderly p → IsOrderly (handle_broadcast d p)
message-IsOrderly d p h =
    let (reqs, timers, items, loading, submitting, now) = handle_broadcast_lem d p in
    record {
      counted = rw (submitting, loading) h.counted;
      covered = rw (reqs, timers, set_status-map) (covered (is_final d.status) refl);
      soon = rw (now, timers) (soon (is_final d.status));
    }
  where
    covered :
        (final : Bool)
        → is_final d.status ≡ final
        → IsCovered
            (if final then p.timers ++ timer d.feed_request_id p ∷ [] else p.timers)
            (map (update_status d.feed_request_id d.status) p.pending_requests)
    covered true e =
        IsCovered-update (p.timers ++ timer d.feed_request_id p ∷ []) d.feed_request_id d.status
          p.pending_requests (λ _. contains_last p.timers (timer d.feed_request_id p))
          (IsCovered-more p.timers (timer d.feed_request_id p ∷ []) p.pending_requests h.covered)
    covered false e =
        IsCovered-update p.timers d.feed_request_id d.status p.pending_requests
          (λ f. absurd (ground arith)) h.covered

    soon :
        (final : Bool)
        → IsSoon p.now (if final then p.timers ++ timer d.feed_request_id p ∷ [] else p.timers)
    soon true = IsSoon-schedule d.feed_request_id p h.soon
    soon false = h.soon

-- A reply that is accepted keeps the cover and the times.
accept-IsOrderly :
    (urls : List Text) (res : SubmitReply) (p : Page)
    → IsReply (ok res)
    → IsOrderly p
    → IsCovered (accept urls res p).timers (accept urls res p).pending_requests
      × IsSoon (accept urls res p).now (accept urls res p).timers
accept-IsOrderly urls res p k h =
    let (reqs, timers, items, now) = accept_lem urls res p in
    rw (reqs, timers, now) (by_mode (res.mode == js "full") refl)
  where
    by_mode :
        (full : Bool)
        → (res.mode == js "full") ≡ full
        → IsCovered (if full then p.timers else p.timers ++ timer res.feed_request_id p ∷ []) (
            p.pending_requests
            ++ record {
              feed_request_id = res.feed_request_id;
              job_id = res.job_id;
              urls = urls;
              status = if full then res.status else js "done";
            }
              ∷ [])
          × IsSoon p.now (if full then p.timers else p.timers ++ timer res.feed_request_id p ∷ [])
    by_mode true e = (
      All-append (λ r. is_covered p.timers r ≡ true) p.pending_requests _ h.covered
          (rw (k (((list_eq {A = ℕ}).same_iff res.mode (js "full")).0 e)) refl, tt),
      h.soon,
    )
    by_mode false e = (
      All-append (λ r. is_covered (p.timers ++ timer res.feed_request_id p ∷ []) r ≡ true)
          p.pending_requests _
          (IsCovered-more p.timers (timer res.feed_request_id p ∷ []) p.pending_requests h.covered)
          (ground (arith, contains_last p.timers (timer res.feed_request_id p)), tt),
      IsSoon-schedule res.feed_request_id p h.soon,
    )

-- Of the submissions, at most one was open, so none is left.
answered-counted :
    (p : Page) (before after : List (List Text)) (urls : List Text)
    → IsOrderly p
    → p.submitting ≡ before ++ urls ∷ after
    → length (before ++ after) ≡ 0
answered-counted p before after urls h e =
    let n : length p.submitting ≡ suc (length (before ++ after)) =
      ap length e ∙ length-without before after urls in
    at_most (length (before ++ after)) p.loading (sym n ∙ h.counted)
  where
    at_most : (k : ℕ) (b : Bool) → suc k ≡ (if b then 1 else 0) → k ≡ 0
    at_most k true d = omega arith
    at_most k false d = absurd (omega arith)

settle-IsOrderly :
    (p : Page) (before after : List (List Text)) (urls : List Text) (r : Result SubmitReply)
    → p.submitting ≡ before ++ urls ∷ after
    → IsReply r
    → IsOrderly p
    → IsOrderly (record (settle urls r p) { submitting = before ++ after })
unfolding settle
settle-IsOrderly p before after urls (ok res) e k h =
    let (covered, soon) = accept-IsOrderly urls res p k h in
    record { counted = answered-counted p before after urls h e; covered = covered; soon = soon }
settle-IsOrderly p before after urls (err m) e k h = record {
  counted = answered-counted p before after urls h e;
  covered = h.covered;
  soon = h.soon;
}

send-IsOrderly :
    (p : Page) (fields urls : List Text)
    → (view p.loading fields).submit_disabled ≡ false
    → IsOrderly p
    → IsOrderly (submit urls p)
unfolding submit view is_submit_disabled
send-IsOrderly p fields urls d h = record {
  counted = ground (arith, length-append p.submitting (urls ∷ []), h.counted);
  covered = h.covered;
  soon = h.soon;
}

load-IsOrderly : (r : Result (Option (List Item))) (p : Page) → IsOrderly p → IsOrderly (load r p)
unfolding load
load-IsOrderly (ok items) p h = record { counted = h.counted; covered = h.covered; soon = h.soon }
load-IsOrderly (err m) p h = record { counted = h.counted; covered = h.covered; soon = h.soon }

timeout-IsOrderly :
    (p : Page) (before after : List Timer) (t : Timer)
    → p.timers ≡ before ++ t ∷ after
    → IsOrderly p
    → IsOrderly (record (fire t p) { timers = before ++ after })
unfolding fire
timeout-IsOrderly p before after t e h = record {
  counted = h.counted;
  covered =
      IsCovered-timeout before after t p.pending_requests
        (subst (λ ts. IsCovered ts p.pending_requests) e h.covered);
  soon = All-without (λ s. s.due ≤ p.now + 3000) before after t (subst (IsSoon p.now) e h.soon);
}

wait-IsOrderly : (n : ℕ) (p : Page) → IsOrderly p → IsOrderly (record p { now = p.now + n })
wait-IsOrderly n p h = record {
  counted = h.counted;
  covered = h.covered;
  soon = IsSoon-later p.now n p.timers h.soon;
}

close-IsOrderly : (p : Page) → IsOrderly p → IsOrderly (close_error p)
unfolding close_error
close-IsOrderly p h = record { counted = h.counted; covered = h.covered; soon = h.soon }

pub Step-IsOrderly : {p q : Page} → Step p q → IsOrderly p → IsOrderly q
Step-IsOrderly {p} (message d e) h = rw e (message-IsOrderly d p h)
Step-IsOrderly {p} (send fields urls d s e) h = rw e (send-IsOrderly p fields urls d h)
Step-IsOrderly {p} (answer before after urls r o k e) h =
    rw e (settle-IsOrderly p before after urls r o k h)
Step-IsOrderly {p} (loaded r e) h = rw e (load-IsOrderly r p h)
Step-IsOrderly {p} (timeout before after t o d e) h = rw e (timeout-IsOrderly p before after t o h)
Step-IsOrderly {p} (wait n e) h = rw e (wait-IsOrderly n p h)
Step-IsOrderly {p} (close e) h = rw e (close-IsOrderly p h)

-- In every page that the dashboard can reach from an orderly one by messages, submissions,
-- answers, the first reading, timers and time, where no reply in the mode "full" has the status
-- "done" or "failed": at most one submission is open, and `loading` says whether one is; every
-- request whose status is final has a timer of its identifier; and every timer is due within three
-- seconds.
pub Reach-IsOrderly : {p q : Page} → Reach p q → IsOrderly p → IsOrderly q
Reach-IsOrderly here h = h
Reach-IsOrderly (next r s) h = Step-IsOrderly s (Reach-IsOrderly r h)

pub first_page-IsOrderly : (items : List Item) → IsOrderly (first_page items)
first_page-IsOrderly items = record { counted = refl; covered = tt; soon = tt }
