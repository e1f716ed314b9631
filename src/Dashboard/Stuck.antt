-- ===== src/Dashboard/Stuck.antt =====
-- A request whose last message has come before the reply that shows it.
use emp_apps.Base.{
  ℕ, ◌≡◌, refl, sym, ◌∙◌, true, false, List, [], ◌∷◌, ◌++◌, Option, none, some, arith, inl, inr,
  Bool-cases, ◌==◌, list_eq, nat_eq, nat_beq, contains, contains-append, map-append, Result, ok,
  err,
}
use emp_apps.Base.Text.{Text, js}
use emp_apps.Feeds.{Item, PendingRequest, Broadcast, SubmitReply}
use emp_apps.Dashboard.{
  Page, Timer, is_final, handle_broadcast, submit, settle, load, fire, close_error,
}
use emp_apps.Dashboard.Pending.{
  request_of, request_of-set_status, request_of-remove_request, request_of-append_absent,
}
use emp_apps.Dashboard.Handlers.{handle_broadcast_lem, accept_lem, timer}
use emp_apps.Dashboard.Race.{row}
use emp_apps.Dashboard.Steps.{Step, message, send, answer, loaded, timeout, wait, close, timer_ids}

module _ (id : ℕ) where
  abbrev SparesReply : Result SubmitReply → Type 0
  SparesReply (ok res) = nat_beq id res.feed_request_id ≡ false
  SparesReply (err m) = Unit

  -- Everything but a message or a reply for the request.
  abbrev pub Spares : {p q : Page} → Step p q → Type 0
  Spares (message d e) = nat_beq id d.feed_request_id ≡ false
  Spares (answer before after urls r o k e) = SparesReply r
  Spares s = Unit

  pub data Run (p : Page) : Page → Type 0 where
    begin : Run p p
    event : {q r : Page} → Run p q → (s : Step q r) → Spares s → Run p r

  abbrev pub Untimed : Page → Type 0
  Untimed p = contains (timer_ids p.timers) id ≡ false

  untimed_more :
      (timers : List Timer) (t : Timer)
      → contains (timer_ids timers) id ≡ false
      → nat_beq id t.feed_request_id ≡ false
      → contains (timer_ids (timers ++ t ∷ [])) id ≡ false
  untimed_more timers t h k =
      rw map-append (ground (arith, contains-append (timer_ids timers) (timer_ids (t ∷ [])) id))

  untimed_before :
      (before after : List Timer) (t : Timer)
      → contains (timer_ids (before ++ t ∷ after)) id ≡ false
      → (nat_beq id t.feed_request_id ≡ false) × (contains (timer_ids (before ++ after)) id ≡ false)
  untimed_before [] after t h = ground arith
  untimed_before (b ∷ before) after t h =
      let (e, k) = untimed_before before after t (ground arith) in (e, ground arith)

  request_of-append :
      (reqs : List PendingRequest) (r : PendingRequest)
      → nat_beq id r.feed_request_id ≡ false
      → request_of id (reqs ++ r ∷ []) ≡ request_of id reqs
  request_of-append [] r h = ground arith
  request_of-append (q ∷ qs) r h = ground (arith, request_of-append qs r h)

  -- What such a step does to the request and its timers.
  abbrev Same : Page → Page → Type 0
  Same p q = (request_of id q.pending_requests ≡ request_of id p.pending_requests) × Untimed q

  message-Same :
      (d : Broadcast) (p : Page)
      → nat_beq id d.feed_request_id ≡ false
      → Untimed p
      → Same p (handle_broadcast d p)
  message-Same d p h u =
      let (reqs, timers, a, b, c, e) = handle_broadcast_lem d p in
      (
        rw (reqs, request_of-set_status, h) refl,
        elim (Bool-cases (is_final d.status)) [
          | inl e ↦ rw (timers, e) (untimed_more p.timers (timer d.feed_request_id p) u h)
          | inr e ↦ rw (timers, e) u
        ],
      )

  reply-Same :
      (urls : List Text) (r : Result SubmitReply) (p : Page)
      → SparesReply r
      → Untimed p
      → Same p (settle urls r p)
  unfolding settle
  reply-Same urls (err m) p h u = (refl, u)
  reply-Same urls (ok res) p h u =
      let (reqs, timers, a, b) = accept_lem urls res p in
      (
        rw reqs (request_of-append p.pending_requests _ h),
        elim (Bool-cases (res.mode == js "full")) [
          | inl e ↦ rw (timers, e) u
          | inr e ↦ rw (timers, e) (untimed_more p.timers (timer res.feed_request_id p) u h)
        ],
      )

  timeout-Same :
      (before after : List Timer) (t : Timer) (p : Page)
      → p.timers ≡ before ++ t ∷ after
      → Untimed p
      → Same p (record (fire t p) { timers = before ++ after })
  unfolding fire
  timeout-Same before after t p o u =
      let (e, k) = untimed_before before after t (rw (sym o) u) in
      (rw (request_of-remove_request id t.feed_request_id p.pending_requests, e) refl, k)

  load-Same : (r : Result (Option (List Item))) (p : Page) → Untimed p → Same p (load r p)
  unfolding load
  load-Same (ok items) p u = (refl, u)
  load-Same (err m) p u = (refl, u)

  step-Same : {p q : Page} (s : Step p q) → Spares s → Untimed p → Same p q
  unfolding submit close_error
  step-Same {p} (message d e) h u = rw e (message-Same d p h u)
  step-Same {p} (send fields urls d o e) h u = rw e (refl, u)
  step-Same {p} (answer before after urls r o k e) h u = rw e (reply-Same urls r p h u)
  step-Same {p} (loaded r e) h u = rw e (load-Same r p u)
  step-Same {p} (timeout before after t o d e) h u = rw e (timeout-Same before after t p o u)
  step-Same {p} (wait n e) h u = rw e (refl, u)
  step-Same {p} (close e) h u = rw e (refl, u)

  Run-Same : {p q : Page} → Run p q → Untimed p → Same p q
  Run-Same begin u = (refl, u)
  Run-Same (event r s h) u =
      let (same, k) = Run-Same r u in let (last, k') = step-Same s h k in (last ∙ same, k')

  -- Such steps do not show a request that is not shown, whatever its timers.
  step_absent :
      {p q : Page} (s : Step p q)
      → Spares s
      → request_of id p.pending_requests ≡ none
      → request_of id q.pending_requests ≡ none
  unfolding submit close_error settle fire load
  step_absent {p} (message d e) h n =
      rw (e, (handle_broadcast_lem d p).0, request_of-set_status, h) n
  step_absent {p} (send fields urls d o e) h n = rw e n
  step_absent {p} (answer before after urls (ok res) o k e) h n =
      rw (e, (accept_lem urls res p).0) (request_of-append p.pending_requests _ h ∙ n)
  step_absent {p} (answer before after urls (err m) o k e) h n = rw e n
  step_absent {p} (loaded (ok items) e) h n = rw e n
  step_absent {p} (loaded (err m) e) h n = rw e n
  step_absent {p} (timeout before after t o d e) h n =
      rw (e, request_of-remove_request id t.feed_request_id p.pending_requests) (ground arith)
  step_absent {p} (wait m e) h n = rw e n
  step_absent {p} (close e) h n = rw e n

  Run-absent :
      {p q : Page}
      → Run p q
      → request_of id p.pending_requests ≡ none
      → request_of id q.pending_requests ≡ none
  Run-absent begin n = n
  Run-absent (event r s h) n = step_absent s h (Run-absent r n)

  added :
      (urls : List Text) (res : SubmitReply) (p : Page)
      → res.feed_request_id ≡ id
      → res.mode ≡ js "full"
      → request_of id p.pending_requests ≡ none
      → (request_of id (settle urls (ok res) p).pending_requests ≡ some (row res urls))
        × ((settle urls (ok res) p).timers ≡ p.timers)
  unfolding settle
  added urls res p same full n =
      let is_full : (res.mode == js "full") ≡ true =
        ((list_eq {A = ℕ}).same_iff res.mode (js "full")).1 full in
      let (reqs, timers, a, b) = accept_lem urls res p in
      (
        rw (reqs, is_full) (request_of-append_absent id p.pending_requests (row res urls) n same),
        timers ∙ rw is_full,
      )

  -- A message comes for a request that is not shown, then anything but a message or a reply for it until
  -- no timer of its identifier is left, and only then its reply in the mode "full": after every further
  -- run without a message or a reply for it, whichever timers run and however long it takes, the request
  -- is shown with the reply's status.
  pub overtaken_for_good :
      (d : Broadcast) (urls : List Text) (res : SubmitReply) (p q s : Page)
      → d.feed_request_id ≡ id
      → res.feed_request_id ≡ id
      → res.mode ≡ js "full"
      → request_of id p.pending_requests ≡ none
      → Run (handle_broadcast d p) q
      → Untimed q
      → Run (settle urls (ok res) q) s
      → request_of id s.pending_requests ≡ some (row res urls)
  overtaken_for_good d urls res p q s of_message of_reply full n before u after =
      let missed : request_of id (handle_broadcast d p).pending_requests ≡ none =
        rw ((handle_broadcast_lem d p).0, request_of-set_status, n) (ground arith) in
      let (shown, same) = added urls res q of_reply full (Run-absent before missed) in
      (Run-Same after (rw same u)).0 ∙ shown
