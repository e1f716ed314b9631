-- ===== src/Jobs/Lock.antt =====
-- The lock of `work`: the update of the open rows of a job.
use emp_apps.Base.{
  ℕ, ◌≡◌, refl, sym, ap, ◌∙◌, Bool, true, false, ◌||◌, List, [], ◌∷◌, map, Option, none, some,
  arith, inl, inr, Bool-cases, ◌==◌, list_eq, nat_eq, if◌then◌else◌, filter, Result, ok,
}
use emp_apps.Base.Text.{Text, js}
use emp_apps.Dashboard.{is_final}
use emp_apps.Jobs.{
  Faults, locked, searched, find_by_job, FeedRequest, Outcome, Rails, Server, find_by_job, is_open,
  claim, process, work_on, work,
}

abbrev is_waiting : Text → Bool
is_waiting status = (status == js "pending") || (status == js "processing")

final_waits : (status : Text) → is_final status ≡ true → is_waiting status ≡ false
unfolding js
final_waits status h = elim (Bool-cases (status == js "done")) [
  | inl e ↦ rw (((list_eq {A = ℕ}).same_iff status (js "done")).0 e) refl
  | inr e ↦
      let f : (status == js "failed") ≡ true = ground arith in
      rw (((list_eq {A = ℕ}).same_iff status (js "failed")).0 f) refl
]

abbrev pub set_status : Text → Text → FeedRequest → FeedRequest
set_status job status r = if is_open job r then record r { status = status } else r

closes :
    (job status : Text) (r : FeedRequest)
    → is_final status ≡ true
    → is_open job (set_status job status r) ≡ false
closes job status r h = elim (Bool-cases (is_open job r)) [
  | inl e ↦ rw (e, final_waits status h) (ground arith)
  | inr e ↦ rw e e
]

pub none_open :
    (job status : Text) (rs : List FeedRequest)
    → is_final status ≡ true
    → filter (is_open job) (map (set_status job status) rs) ≡ []
none_open job status [] h = refl
none_open job status (r ∷ rs) h = rw (closes job status r h) (none_open job status rs h)

same_rows :
    (job status : Text) (rs : List FeedRequest)
    → filter (is_open job) rs ≡ []
    → map (set_status job status) rs ≡ rs
same_rows job status [] h = refl
same_rows job status (r ∷ rs) h = elim (Bool-cases (is_open job r)) [
  | inl e ↦ absurd (cons-ne-nil (sym (kept e) ∙ h))
  | inr e ↦ rw e (ap (r ∷◌) (same_rows job status rs (sym (left e) ∙ h)))
]
  where
    kept : is_open job r ≡ true → filter (is_open job) (r ∷ rs) ≡ r ∷ filter (is_open job) rs
    kept e = rw e

    left : is_open job r ≡ false → filter (is_open job) (r ∷ rs) ≡ filter (is_open job) rs
    left e = rw e

    cons-ne-nil : {x : FeedRequest} {xs : List FeedRequest} → ¬ (x ∷ xs ≡ [])
    cons-ne-nil h = cc

module _ (rails : Rails) where
  -- Without an open row the lock changes nothing.
  pub claim_of_none :
      (job status : Text) (s : Server rails)
      → filter (is_open job) s.requests ≡ []
      → claim rails job status s ≡ (0, s)
  unfolding claim
  claim_of_none job status s h = rw (h, same_rows job status s.requests h)

  locked_of_none :
      (o : Option Text) (r : FeedRequest) (d : Outcome) (s : Server rails)
      → filter (is_open d.job_id) s.requests ≡ []
      → (locked rails o r d s).1 ≡ s
  locked_of_none none r d s h = rw (claim_of_none d.job_id d.status s h) refl
  locked_of_none (some m) r d s h = refl

  pub nothing_open :
      (f : Faults) (o : Option FeedRequest) (d : Outcome) (s : Server rails)
      → filter (is_open d.job_id) s.requests ≡ []
      → (process rails f o d s).1 ≡ s
  nothing_open f none d s h = refl
  nothing_open f (some r) d s h = elim (Bool-cases (is_final r.status)) [
    | inl e ↦ rw e
    | inr e ↦ rw e (locked_of_none f.lock r d s h)
  ]

  searched_state :
      (o : Option Text) (f : Faults) (d : Outcome) (s : Server rails)
      → (process rails f (find_by_job rails d.job_id s) d s).1 ≡ s
      → (searched rails o f d s).1 ≡ s
  searched_state none f d s h = h
  searched_state (some m) f d s h = refl

  pub work_state :
      (parse : Text → Result Outcome) (f : Faults) (payload : Text) (d : Outcome) (s : Server rails)
      → parse payload ≡ ok d
      → (process rails f (find_by_job rails d.job_id s) d s).1 ≡ s
      → (work rails parse f payload s).1 ≡ s
  unfolding work
  work_state parse f payload d s e h =
      ap (λ o. (work_on rails f o s).1) e ∙ searched_state f.search f d s h

  pub work-nothing_open :
      (parse : Text → Result Outcome) (f : Faults) (payload : Text) (d : Outcome) (s : Server rails)
      → parse payload ≡ ok d
      → filter (is_open d.job_id) s.requests ≡ []
      → (work rails parse f payload s).1 ≡ s
  work-nothing_open parse f payload d s e h =
      work_state parse f payload d s e (nothing_open f (find_by_job rails d.job_id s) d s h)
