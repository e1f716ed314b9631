-- ===== src/Jobs/Publish/Late.antt =====
-- The write of `perform` that comes after the broker has the job.
use emp_apps.Base.{
  ==_refl, ℕ, ◌≡◌, refl, sym, ap, ◌∙◌, true, false, List, [], ◌∷◌, map, Option, none, some, arith,
  inl, inr, Bool-cases, ◌==◌, list_eq, nat_eq, nat_beq, nat_beq_iff, find, Result, ok,
}
use emp_apps.Base.Text.{Text, js}
use emp_apps.Jobs.{FeedRequest, Rails, Server, find_by_job, is_open}
use emp_apps.Jobs.Publish.{
  Reply, Memory, written, handled, raises, save, update, execute_fallback, perform,
}

module _ (rails : Rails) (refuses : FeedRequest → Server rails → Option Text) where
  find-written :
      (job : Text) (m : Memory) (rs : List FeedRequest) (q : FeedRequest)
      → m.row.job_id ≡ m.saved.job_id
      → find (λ x. x.job_id == job) rs ≡ some q
      → find (λ x. x.job_id == job) (map (written m) rs) ≡ some (written m q)
  find-written job m [] q e h = cc
  find-written job m (x ∷ rs) q e h =
      let same = written-job_id x in
      elim (Bool-cases (x.job_id == job)) [
        | inl k ↦
            rw (same, k)
              (ap (λ (o : Option FeedRequest). elim o [ none ↦ none | some y ↦ some (written m y) ])
                (sym (first k) ∙ h))
        | inr k ↦ rw (same, k) (find-written job m rs q e (sym (later k) ∙ h))
      ]
    where
      written-job_id : (x : FeedRequest) → (written m x).job_id ≡ x.job_id
      written-job_id x = elim (Bool-cases (nat_beq x.id m.row.id)) [
        | inl k ↦ rw (k, ==_job) refl
        | inr k ↦ rw k refl
      ]
        where
          ==_job : (m.row.job_id == m.saved.job_id) ≡ true
          ==_job = ((list_eq {A = ℕ}).same_iff m.row.job_id m.saved.job_id).1 e

      first : (x.job_id == job) ≡ true → find (λ x. x.job_id == job) (x ∷ rs) ≡ some x
      first k = rw k

      later :
          (x.job_id == job) ≡ false
          → find (λ x. x.job_id == job) (x ∷ rs) ≡ find (λ x. x.job_id == job) rs
      later k = rw k

  found_job :
      (job : Text) (rs : List FeedRequest) (q : FeedRequest)
      → find (λ x. x.job_id == job) rs ≡ some q
      → (q.job_id == job) ≡ true
  found_job job [] q h = cc
  found_job job (x ∷ rs) q h = ground (arith, found_job job rs q)

  abbrev pub processing : FeedRequest → FeedRequest
  processing q = record q { status = js "processing" }

  perform_of_saved :
      (r : FeedRequest) (response : Result Reply) (s : Server rails)
      → raises rails refuses (processing r) s ≡ none
      → perform rails refuses r (ok tt) response s
        ≡ save rails refuses none (record { row = processing r; saved = r }) s
  unfolding perform update
  perform_of_saved r response s e =
      ap
        (λ o.
          handled rails refuses (save rails refuses o (record { row = processing r; saved = r }) s)
            (λ m. execute_fallback rails refuses response))
        e

  reopened :
      (r q : FeedRequest)
      → r.status ≡ js "pending"
      → q.id ≡ r.id
      → (q.job_id == r.job_id) ≡ true
      → is_open r.job_id (written (record { row = processing r; saved = r }) q) ≡ true
  unfolding js
  reopened r q pending i found =
      let same : nat_beq q.id r.id ≡ true = (nat_beq_iff q.id r.id).1 i in
      let kept : (r.job_id == r.job_id) ≡ true = ==_refl r.job_id in
      rw (same, kept, pending, found) refl

  -- For a request that the job has read as pending, where the broker takes the job and saving the request
  -- as processing does not raise: the row that the results of its job find is open once `perform` has
  -- ended, whatever that row's status was by then, so also if a result had finished it meanwhile.
  pub perform_reopens :
      (r q : FeedRequest) (response : Result Reply) (s : Server rails)
      → r.status ≡ js "pending"
      → raises rails refuses (processing r) s ≡ none
      → find_by_job rails r.job_id s ≡ some q
      → q.id ≡ r.id
      → (q' : FeedRequest) × (find_by_job rails r.job_id
            (perform rails refuses r (ok tt) response s).1.server
          ≡ some q')
        × (is_open r.job_id q' ≡ true)
  perform_reopens r q response s pending saves f i = (
    written (record { row = processing r; saved = r }) q,
    rw (perform_of_saved r response s saves)
        (find-written r.job_id (record { row = processing r; saved = r }) s.requests q refl f),
    reopened r q pending i (found_job r.job_id s.requests q f),
  )
