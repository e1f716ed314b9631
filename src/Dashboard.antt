-- ===== src/Dashboard.antt =====
-- `Dashboard` of app/frontend/components/App.jsx: its states, the callback of the channel, the handler
-- of the form in its two halves, the effect of the first render, and the clean-up timers.
pub mod Items
pub mod Pending
pub mod Handlers
pub mod Steps
pub mod Message
pub mod Errors
pub mod Race
pub mod Stuck
use emp_apps.Base.{
  ℕ, zero, suc, ◌+◌, ◌≡◌, Bool, true, false, not, ◌&&◌, ◌||◌, List, [], ◌∷◌, ◌++◌, map, Option,
  none, some, Eq, ◌==◌, list_eq, nat_eq, option_eq, if◌then◌else◌, nat_beq, filter, find, contains,
  Result, ok, err,
}
use emp_apps.Base.Text.{Text, js, or_else, join}
use emp_apps.Client.Json.{Elems, nil, cons, texts}
use emp_apps.Feeds.{Item, PendingRequest, Broadcast, SubmitReply}

-- A call of `setTimeout` whose callback removes the requests of an identifier, and when it is due.
pub record Timer : Type 0 where
  pub due : ℕ
  pub feed_request_id : ℕ

-- The component's states, the `feedItems` that its parent holds, and what it has left with the browser:
-- the timers, in milliseconds of a clock, and the submissions that are not answered.
pub record Page : Type 0 where
  pub loading : Bool
  pub error : Text
  pub pending_requests : List PendingRequest
  pub feed_items : List Item
  pub timers : List Timer
  pub submitting : List (List Text)
  pub now : ℕ

abbrev pub first_page : List Item → Page
first_page items = record {
  loading = false;
  error = [];
  pending_requests = [];
  feed_items = items;
  timers = [];
  submitting = [];
  now = 0;
}

-- `items || []`
abbrev pub or_empty {ℓ} : {A : Type ℓ} → Option (List A) → List A
or_empty none = []
or_empty (some xs) = xs

abbrev pub links : List Item → List (Option Text)
links = map (λ item. item.link)

-- The updater of `setFeedItems`: stories whose links are not held go in front.
unfoldable pub merge_items : List Item → List Item → List Item
merge_items items prev = filter (λ item. not (contains (links prev) item.link)) items ++ prev

abbrev pub has_id : ℕ → PendingRequest → Bool
has_id id req = nat_beq req.feed_request_id id

abbrev pub update_status : ℕ → Text → PendingRequest → PendingRequest
update_status id status req = if has_id id req then record req { status = status } else req

-- The updater of `setPendingRequests` in `handleBroadcastMessage`.
unfoldable pub set_status : ℕ → Text → List PendingRequest → List PendingRequest
set_status id status prev = elim (find (has_id id) prev) [
  | none ↦ prev
  | some _ ↦ map (update_status id status) prev
]

-- The updater that the timers run.
unfoldable pub remove_request : ℕ → List PendingRequest → List PendingRequest
remove_request id prev = filter (λ r. not (has_id id r)) prev

-- `setTimeout(…, 3000)`
abbrev pub schedule : ℕ → Page → Page
schedule id p = record p {
  timers = p.timers ++ record { due = p.now + 3000; feed_request_id = id } ∷ [];
}

abbrev pub is_final : Text → Bool
is_final status = status == js "done" || status == js "failed"

-- `if (items && items.length > 0) setFeedItems(…)`
abbrev pub add_items : Option (List Item) → Page → Page
add_items none p = p
add_items (some []) p = p
add_items (some (i ∷ is)) p = record p { feed_items = merge_items (i ∷ is) p.feed_items }

-- The banner with the joined texts, if there are all.
abbrev pub show_errors : Option (List Text) → Page → Page
show_errors none p = p
show_errors (some ts) p = record p {
  error = js "Some feeds failed to parse: " ++ join (js ", ") ts;
}

-- `if (errors && errors.length > 0) setError(…)`, the callback's last statement: where an element has no
-- text, the callback ends with an error.
unfoldable pub report : Option Elems → Page → Page
report none p = p
report (some nil) p = p
report (some (cons e es)) p = show_errors (texts (cons e es)) p

unfoldable pub handle_broadcast : Broadcast → Page → Page
unfolding set_status merge_items
handle_broadcast d p =
    let marked = record p {
      pending_requests = set_status d.feed_request_id d.status p.pending_requests;
    } in
    let timed = if is_final d.status then schedule d.feed_request_id marked else marked in
    let filled = if d.status == js "done" then add_items d.items timed else timed in
    report d.errors filled

-- `handleFeedSubmit` up to the `await`.
unfoldable pub submit : List Text → Page → Page
submit urls p = record p { loading = true; error = []; submitting = p.submitting ++ urls ∷ [] }

-- `setPendingRequests((prev) => [...prev, { … }])`
abbrev pub add_request : SubmitReply → List Text → Text → Page → Page
add_request res urls status p = record p {
  pending_requests =
      p.pending_requests
      ++ record {
        feed_request_id = res.feed_request_id;
        job_id = res.job_id;
        urls = urls;
        status = status;
      }
        ∷ [];
}

-- The `try` behind the `await`.
unfoldable pub accept : List Text → SubmitReply → Page → Page
unfolding merge_items
accept urls res p =
    if res.mode == js "full"
    then add_request res urls res.status p
    else schedule res.feed_request_id (add_request res urls (js "done") (add_items res.items p))

-- The rest of `handleFeedSubmit`, with its `catch` and its `finally`.
unfoldable pub settle : List Text → Result SubmitReply → Page → Page
unfolding accept
settle urls (ok res) p = record (accept urls res p) { loading = false }
settle urls (err m) p = record p {
  error = or_else m (js "Failed to submit feeds");
  loading = false;
}

-- The first effect's reading of the stories.
unfoldable pub load : Result (Option (List Item)) → Page → Page
load (ok items) p = record p { feed_items = or_empty items }
load (err m) p = record p { error = js "Failed to load feed items" }

unfoldable pub fire : Timer → Page → Page
unfolding remove_request
fire t p = record p { pending_requests = remove_request t.feed_request_id p.pending_requests }

-- The banner's `onClose`.
unfoldable pub close_error : Page → Page
close_error p = record p { error = [] }
