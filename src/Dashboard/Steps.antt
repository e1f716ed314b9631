-- ===== src/Dashboard/Steps.antt =====
-- The dashboard while it is mounted: what the user, the server, the channel and the clock can do next. The
-- browser's check of the form's inputs, which only rules submissions out, is left out here.
pub mod Timers
pub mod Orderly
pub mod Quiet
use emp_apps.Base.{
  ℕ, ◌+◌, ◌≤◌, ◌≡◌, Bool, true, false, not, ◌||◌, List, [], ◌∷◌, ◌++◌, map, Option, none, some, Eq,
  ◌==◌, list_eq, nat_eq, Result, ok, err, contains, length, All, if◌then◌else◌,
}
use emp_apps.Base.Text.{Text, js}
use emp_apps.FeedForm.{handle_submit, view}
use emp_apps.Feeds.{Item, PendingRequest, Broadcast, SubmitReply}
use emp_apps.Dashboard.{
  Page, Timer, is_final, handle_broadcast, submit, settle, load, fire, close_error,
}

-- A reply that says that the request runs in the background does not call it finished: the controller
-- `Api::V1::FeedsController#create` answers with the status "pending".
abbrev pub IsReply : Result SubmitReply → Type 0
IsReply (ok res) = res.mode ≡ js "full" → is_final res.status ≡ false
IsReply (err m) = Unit

pub data Step (p q : Page) : Type 0 where
  message : (d : Broadcast) → q ≡ handle_broadcast d p → Step p q
  send :
      (fields urls : List Text)
      → (view p.loading fields).submit_disabled ≡ false
      → handle_submit fields ≡ some urls
      → q ≡ submit urls p
      → Step p q
  answer :
      (before after : List (List Text)) (urls : List Text) (r : Result SubmitReply)
      → p.submitting ≡ before ++ urls ∷ after
      → IsReply r
      → q ≡ record (settle urls r p) { submitting = before ++ after }
      → Step p q
  loaded : (r : Result (Option (List Item))) → q ≡ load r p → Step p q
  -- A timer runs when it is due, or later.
  timeout :
      (before after : List Timer) (t : Timer)
      → p.timers ≡ before ++ t ∷ after
      → t.due ≤ p.now
      → q ≡ record (fire t p) { timers = before ++ after }
      → Step p q
  wait : (n : ℕ) → q ≡ record p { now = p.now + n } → Step p q
  close : q ≡ close_error p → Step p q

pub data Reach (p : Page) : Page → Type 0 where
  here : Reach p p
  next : {q r : Page} → Reach p q → Step q r → Reach p r

abbrev pub timer_ids : List Timer → List ℕ
timer_ids = map (λ t. t.feed_request_id)

-- A request that is finished has a timer that will remove it.
abbrev pub is_covered : List Timer → PendingRequest → Bool
is_covered timers r = not (is_final r.status) || contains (timer_ids timers) r.feed_request_id

pub record IsOrderly (p : Page) : Type 0 where
  pub counted : length p.submitting ≡ (if p.loading then 1 else 0)
  pub covered : All (λ r. is_covered p.timers r ≡ true) p.pending_requests
  pub soon : All (λ t. t.due ≤ p.now + 3000) p.timers
