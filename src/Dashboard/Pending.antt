-- ===== src/Dashboard/Pending.antt =====
-- The active tasks as a map from identifiers to requests.
use emp_apps.Base.{
  ℕ, ◌≡◌, refl, List, [], ◌∷◌, ◌++◌, map, Option, none, some, arith, if◌then◌else◌, nat_beq, find,
}
use emp_apps.Base.Text.{Text}
use emp_apps.Feeds.{PendingRequest}
use emp_apps.Dashboard.{has_id, update_status, set_status, remove_request}

-- The request that is shown under an identifier.
abbrev pub request_of : ℕ → List PendingRequest → Option PendingRequest
request_of id reqs = find (has_id id) reqs

update_of_absent :
    (id : ℕ) (status : Text) (reqs : List PendingRequest)
    → find (has_id id) reqs ≡ none
    → reqs ≡ map (update_status id status) reqs
update_of_absent id status [] h = refl
update_of_absent id status (r ∷ rs) h = ground (arith, update_of_absent id status rs)

-- Updating only after a search has found the identifier gives the same list as updating every
-- request of that identifier without searching.
pub set_status-map :
    (id : ℕ) (status : Text) (reqs : List PendingRequest)
    → set_status id status reqs ≡ map (update_status id status) reqs
unfolding set_status
set_status-map id status reqs = by_search (find (has_id id) reqs) refl
  where
    by_search :
        (o : Option PendingRequest)
        → find (has_id id) reqs ≡ o
        → (elim o [ none ↦ reqs | some _ ↦ map (update_status id status) reqs ])
          ≡ map (update_status id status) reqs
    by_search none e = update_of_absent id status reqs e
    by_search (some r) e = refl

abbrev pub with_status : Text → Option PendingRequest → Option PendingRequest
with_status status none = none
with_status status (some r) = some (record r { status = status })

request_of-map :
    (k id : ℕ) (status : Text) (reqs : List PendingRequest)
    → request_of k (map (update_status id status) reqs)
      ≡ (if nat_beq k id then with_status status (request_of k reqs) else request_of k reqs)
request_of-map k id status [] = ground arith
request_of-map k id status (r ∷ rs) = ground (arith, request_of-map k id status rs)

pub request_of-set_status :
    (k id : ℕ) (status : Text) (reqs : List PendingRequest)
    → request_of k (set_status id status reqs)
      ≡ (if nat_beq k id then with_status status (request_of k reqs) else request_of k reqs)
request_of-set_status k id status reqs = rw set_status-map (request_of-map k id status reqs)

-- A timer removes the requests of its identifier and no other.
pub request_of-remove_request :
    (k id : ℕ) (reqs : List PendingRequest)
    → request_of k (remove_request id reqs) ≡ (if nat_beq k id then none else request_of k reqs)
unfolding remove_request
request_of-remove_request k id [] = ground arith
request_of-remove_request k id (r ∷ rs) = ground (arith, request_of-remove_request k id rs)

abbrev pub ids : List PendingRequest → List ℕ
ids = map (λ r. r.feed_request_id)

-- The rows of the list keep their identifiers and their order under a message.
pub ids-set_status :
    (id : ℕ) (status : Text) (reqs : List PendingRequest)
    → ids (set_status id status reqs) ≡ ids reqs
ids-set_status id status reqs = rw set_status-map (of_map reqs)
  where
    of_map : (rs : List PendingRequest) → ids (map (update_status id status) rs) ≡ ids rs
    of_map [] = refl
    of_map (r ∷ rs) = ground (arith, of_map rs)

pub request_of-append_absent :
    (k : ℕ) (reqs : List PendingRequest) (r : PendingRequest)
    → request_of k reqs ≡ none
    → r.feed_request_id ≡ k
    → request_of k (reqs ++ r ∷ []) ≡ some r
request_of-append_absent k [] r h e = rw e (ground arith)
request_of-append_absent k (q ∷ qs) r h e = ground (arith, request_of-append_absent k qs r)
