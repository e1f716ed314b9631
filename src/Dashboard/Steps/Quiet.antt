-- ===== src/Dashboard/Steps/Quiet.antt =====
-- What becomes of the finished requests when the timers run.
use emp_apps.Base.{
  if◌then◌else◌, ℕ, ◌+◌, ◌≤◌, ◌≡◌, refl, sym, ap, ◌∙◌, Bool, true, false, not, List, [], ◌∷◌, ◌++◌,
  arith, inl, inr, Bool-cases, filter, filter-All, All, contains, contains-append, map-append,
  nat_eq, nat_beq,
}
use emp_apps.Feeds.{PendingRequest}
use emp_apps.Dashboard.{Page, Timer, is_final, fire, remove_request}
use emp_apps.Dashboard.Steps.{timer_ids, IsOrderly}
use emp_apps.Dashboard.Steps.Timers.{IsCovered, contains_without}

-- Timers that are due run, one after another and in any order, and nothing else happens.
pub data Fires (p : Page) : Page → Type 0 where
  none_yet : Fires p p
  one_more :
      {q r : Page}
      → Fires p q
      → (before after : List Timer) (t : Timer) → q.timers ≡ before ++ t ∷ after
      → t.due ≤ q.now
      → r ≡ record (fire t q) { timers = before ++ after }
      → Fires p r

-- The requests that no timer will remove.
abbrev pub untimed : List Timer → List PendingRequest → List PendingRequest
untimed timers reqs = filter (λ r. not (contains (timer_ids timers) r.feed_request_id)) reqs

contains_self :
    (before after : List Timer) (t : Timer) (id : ℕ)
    → nat_beq id t.feed_request_id ≡ true
    → contains (timer_ids (before ++ t ∷ after)) id ≡ true
contains_self before after t id h =
    rw map-append (ground (arith, contains-append (timer_ids before) (timer_ids (t ∷ after)) id))

kept :
    (b : Bool) (r : PendingRequest) (rs ss : List PendingRequest)
    → rs ≡ ss
    → (if not b then r ∷ rs else rs) ≡ (if not b then r ∷ ss else ss)
kept true r rs ss h = h
kept false r rs ss h = ap (r ∷◌) h

-- The timer that runs removes what it kept from being untimed, and nothing else.
untimed-remove_request :
    (before after : List Timer) (t : Timer) (reqs : List PendingRequest)
    → untimed (before ++ after) (remove_request t.feed_request_id reqs)
      ≡ untimed (before ++ t ∷ after) reqs
unfolding remove_request
untimed-remove_request before after t [] = refl
untimed-remove_request before after t (r ∷ rs) =
    elim (Bool-cases (nat_beq r.feed_request_id t.feed_request_id)) [
      | inl e ↦
          rw (e, contains_self before after t r.feed_request_id e)
            (untimed-remove_request before after t rs)
      | inr e ↦
          rw (e, contains_without before after t r.feed_request_id e)
            (kept (contains (timer_ids (before ++ t ∷ after)) r.feed_request_id) r _ _
              (untimed-remove_request before after t rs))
    ]

Fires-untimed :
    {p q : Page}
    → Fires p q
    → untimed q.timers q.pending_requests ≡ untimed p.timers p.pending_requests
unfolding fire
Fires-untimed none_yet = refl
Fires-untimed (one_more {q} {r} f before after t o d e) =
    rw e (untimed-remove_request before after t q.pending_requests ∙ rw (sym o) (Fires-untimed f))

abbrev IsDue : ℕ → List Timer → Type 0
IsDue now timers = All (λ t. t.due ≤ now) timers

-- The timers run in the order of the list.
drain :
    (timers : List Timer) (p q : Page)
    → Fires p q
    → q.timers ≡ timers
    → IsDue q.now timers
    → (r : Page) × Fires p r × (r.timers ≡ [])
unfolding fire
drain [] p q f e d = (q, f, e)
drain (t ∷ timers) p q f e (d, ds) =
    drain timers p (record (fire t q) { timers = timers }) (one_more f [] timers t e d refl) refl ds

untimed_of_none :
    (timers : List Timer) (reqs : List PendingRequest) → timers ≡ [] → untimed timers reqs ≡ reqs
untimed_of_none timers reqs e = rw e (filter-All (λ r. true) reqs (all_true reqs))
  where
    all_true : (rs : List PendingRequest) → All (λ r. true ≡ true) rs
    all_true [] = tt
    all_true (r ∷ rs) = (refl, all_true rs)

untimed_not_final :
    (timers : List Timer) (reqs : List PendingRequest)
    → IsCovered timers reqs
    → All (λ r. is_final r.status ≡ false) (untimed timers reqs)
untimed_not_final timers [] h = tt
untimed_not_final timers (r ∷ rs) (h, hs) =
    elim (Bool-cases (contains (timer_ids timers) r.feed_request_id)) [
      | inl e ↦ rw e (untimed_not_final timers rs hs)
      | inr e ↦ rw e (ground arith, untimed_not_final timers rs hs)
    ]

-- Three seconds after an orderly page, its timers can all run with nothing else happening; the page then
-- shows exactly the requests that had no timer, and none of them is done or failed.
pub finished_go :
    (p : Page)
    → IsOrderly p
    → (q : Page) × Fires (record p { now = p.now + 3000 }) q
      × (q.timers ≡ [])
      × (q.pending_requests ≡ untimed p.timers p.pending_requests)
      × All (λ r. is_final r.status ≡ false) q.pending_requests
finished_go p h =
    let later = record p { now = p.now + 3000 } in
    let (q, f, n) = drain p.timers later later none_yet refl h.soon in
    let left : q.pending_requests ≡ untimed p.timers p.pending_requests =
      sym (untimed_of_none q.timers q.pending_requests n) ∙ Fires-untimed f in
    (q, f, n, left, rw left (untimed_not_final p.timers p.pending_requests h.covered))

-- In whatever order due timers run: once none is left, the page shows exactly the requests that had no
-- timer, in their order.
pub Fires-pending_requests :
    (p q : Page)
    → Fires p q
    → q.timers ≡ []
    → q.pending_requests ≡ untimed p.timers p.pending_requests
Fires-pending_requests p q f n =
    sym (untimed_of_none q.timers q.pending_requests n) ∙ Fires-untimed f
