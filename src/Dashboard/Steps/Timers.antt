-- ===== src/Dashboard/Steps/Timers.antt =====
-- Timers and the requests that they cover.
use native.Mathlib.Nat.{le_refl}
use emp_apps.Base.{
  ℕ, suc, ◌+◌, ◌≤◌, ◌≡◌, refl, ap, true, false, List, [], ◌∷◌, ◌++◌, map, map-append, list_eq,
  nat_eq, arith, inl, inr, Bool-cases, contains, contains-append, length, All, All-append,
  All-map_of_imp, nat_beq,
}
use emp_apps.Base.Text.{Text}
use emp_apps.Feeds.{PendingRequest}
use emp_apps.Dashboard.{Page, Timer, is_final, update_status, remove_request}
use emp_apps.Dashboard.Handlers.{timer}
use emp_apps.Dashboard.Steps.{timer_ids, is_covered}

abbrev pub IsCovered : List Timer → List PendingRequest → Type 0
IsCovered timers reqs = All (λ r. is_covered timers r ≡ true) reqs

-- More timers cover no less.
pub IsCovered-more :
    (timers more : List Timer) (reqs : List PendingRequest)
    → IsCovered timers reqs
    → IsCovered (timers ++ more) reqs
IsCovered-more timers more reqs =
    All-map_of_imp (λ r. is_covered timers r ≡ true) (λ r. is_covered (timers ++ more) r ≡ true)
      reqs
      (λ r h.
        rw map-append
          (ground (arith, contains-append (timer_ids timers) (timer_ids more) r.feed_request_id)))

pub contains_last :
    (timers : List Timer) (t : Timer)
    → contains (timer_ids (timers ++ t ∷ [])) t.feed_request_id ≡ true
contains_last timers t =
    rw map-append (
      ground (arith, contains-append (timer_ids timers) (t.feed_request_id ∷ []) t.feed_request_id))

-- A message that is final brings its timer with it.
pub IsCovered-update :
    (timers : List Timer) (id : ℕ) (status : Text) (reqs : List PendingRequest)
    → (is_final status ≡ true → contains (timer_ids timers) id ≡ true)
    → IsCovered timers reqs
    → IsCovered timers (map (update_status id status) reqs)
IsCovered-update timers id status [] k h = tt
IsCovered-update timers id status (r ∷ rs) k (h, hs) =
    (ground arith, IsCovered-update timers id status rs k hs)

pub contains_without :
    (before after : List Timer) (t : Timer) (id : ℕ)
    → nat_beq id t.feed_request_id ≡ false
    → contains (timer_ids (before ++ after)) id ≡ contains (timer_ids (before ++ t ∷ after)) id
contains_without before after t id h =
    rw (map-append, map-append)
      (ground (
        arith,
        contains-append (timer_ids before) (timer_ids after) id,
        contains-append (timer_ids before) (timer_ids (t ∷ after)) id,
      ))

-- The timer that has run covers only what it has removed.
pub IsCovered-timeout :
    (before after : List Timer) (t : Timer) (reqs : List PendingRequest)
    → IsCovered (before ++ t ∷ after) reqs
    → IsCovered (before ++ after) (remove_request t.feed_request_id reqs)
unfolding remove_request
IsCovered-timeout before after t [] h = tt
IsCovered-timeout before after t (r ∷ rs) (h, hs) =
    elim (Bool-cases (nat_beq r.feed_request_id t.feed_request_id)) [
      | inl e ↦ rw e (IsCovered-timeout before after t rs hs)
      | inr e ↦ rw e (
        ground (arith, contains_without before after t r.feed_request_id),
        IsCovered-timeout before after t rs hs,
      )
    ]

abbrev pub IsSoon : ℕ → List Timer → Type 0
IsSoon now timers = All (λ t. t.due ≤ now + 3000) timers

pub IsSoon-later : (now n : ℕ) (timers : List Timer) → IsSoon now timers → IsSoon (now + n) timers
IsSoon-later now n timers =
    All-map_of_imp (λ t. t.due ≤ now + 3000) (λ t. t.due ≤ now + n + 3000) timers
      (λ t h. omega arith)

pub IsSoon-schedule :
    (id : ℕ) (p : Page) → IsSoon p.now p.timers → IsSoon p.now (p.timers ++ timer id p ∷ [])
IsSoon-schedule id p h =
    All-append (λ t. t.due ≤ p.now + 3000) p.timers (timer id p ∷ []) h (le_refl _, tt)

pub All-without {ℓ} :
    {A : Type ℓ} (P : A → Type 0) (before after : List A) (x : A)
    → All P (before ++ x ∷ after)
    → All P (before ++ after)
All-without P [] after x (h, hs) = hs
All-without P (b ∷ before) after x (h, hs) = (h, All-without P before after x hs)

pub length-without {ℓ} :
    {A : Type ℓ} (before after : List A) (x : A)
    → length (before ++ x ∷ after) ≡ suc (length (before ++ after))
length-without [] after x = refl
length-without (b ∷ before) after x = ap suc (length-without before after x)
