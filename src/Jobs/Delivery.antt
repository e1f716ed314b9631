-- ===== src/Jobs/Delivery.antt =====
-- What becomes of a result that the broker delivers more than once, or whose stories cannot be written.
use emp_apps.Base.{
  ◌≢◌, Option, none, ℕ, ◌≡◌, ◌⊎◌, refl, sym, ap, subst, ◌∙◌, true, false, [], ◌∷◌, ◌++◌, Option,
  none, some, inl, inr, Bool-cases, list_eq, nat_eq, nat_beq, filter, Result, ok, err,
}
use emp_apps.Base.Text.{Text}
use emp_apps.Feeds.{Broadcast}
use emp_apps.Dashboard.{is_final, or_empty}
use emp_apps.Jobs.{
  Faults, locked, searched, FeedRequest, Outcome, Rails, Verdict, ack, reject, Server, bind,
  save_groups, broadcast, find_by_job, is_open, claim, message_of, group_by, publish_result,
  process_claimed, verdict, process, work_on, work,
}
use emp_apps.Jobs.Lock.{work_state, none_open, claim_of_none, work-nothing_open}
use emp_apps.Jobs.Quiet.{IsQuiet, save_groups-Quiet}

module _ (rails : Rails) where
  -- The end of `publish_result`: nothing is sent and the message is rejected, or one message is sent.
  abbrev pub Ends : Server rails → ℕ × Broadcast → Result (Unit {0}) × Server rails → Type 0
  Ends s m x =
      (IsQuiet rails s x.1 × ((verdict rails x).0 ≡ reject))
      ⊎ ((x.1.requests ≡ s.requests)
          × (x.1.broadcasts ≡ s.broadcasts ++ m ∷ [])
          × ((verdict rails x).0 ≡ ack))

  broadcast-Ends :
      (user : ℕ) (b : Broadcast) (s : Server rails) → Ends s (user, b) (broadcast rails user b s)
  broadcast-Ends user b s = go (rails.deliver user b) refl
    where
      go :
          (o : Result (Unit {0}))
          → rails.deliver user b ≡ o
          → Ends s (user, b) (broadcast rails user b s)
      go (ok x) e = rw (e, broadcast) (inr (refl, refl, refl))
      go (err m) e = rw (e, broadcast) (inl ((refl, refl), refl))

  saved-Ends :
      (user : ℕ) (b : Broadcast) (s : Server rails) (x : Result (Unit {0}) × Server rails)
      → IsQuiet rails s x.1
      → Ends s (user, b) (bind rails x (λ _. broadcast rails user b))
  saved-Ends user b s (err m, t) h = inl (h, refl)
  saved-Ends user b s (ok u, t) (q, k) = elim (broadcast-Ends user b t) [
    | inl ((q', k'), v) ↦ inl ((q' ∙ q, k' ∙ k), v)
    | inr (q', k', v) ↦ inr (q' ∙ q, k' ∙ ap (λ bs. bs ++ (user, b) ∷ []) k, v)
  ]

  publish_result-Ends :
      (r : FeedRequest) (d : Outcome) (s : Server rails)
      → Ends s (r.user_id, message_of r d) (publish_result rails r d s)
  unfolding publish_result
  publish_result-Ends r d s =
      saved-Ends r.user_id (message_of r d) s
        (save_groups rails r.id (group_by (or_empty d.items)) s)
        (save_groups-Quiet rails r.id (group_by (or_empty d.items)) s)

  verdict_state : (x : Result (Unit {0}) × Server rails) → (verdict rails x).1 ≡ x.1
  verdict_state (ok u, t) = refl
  verdict_state (err m, t) = refl

  -- No row of the job, or one that is finished.
  abbrev pub IsOver : Option FeedRequest → Type 0
  IsOver none = Unit
  IsOver (some r) = is_final r.status ≡ true

  -- How `work` ends for a result. Nothing has changed: it was acknowledged, as there is no row or a
  -- finished one, or rejected, as a query on the requests raised. Or no row of its job is left open, and
  -- nothing was sent, or one message for the request, which was not finished.
  abbrev pub Settled : Faults → Outcome → Server rails → Verdict × Server rails → Type 0
  Settled f d s x =
      ((x ≡ (ack, s)) × IsOver (find_by_job rails d.job_id s))
      ⊎ ((x ≡ (reject, s)) × ((f.search ≢ none) ⊎ (f.lock ≢ none)))
      ⊎ ((filter (is_open d.job_id) x.1.requests ≡ [])
          × ((x.1.broadcasts ≡ s.broadcasts)
              ⊎ ((x.0 ≡ ack)
                  × (r : FeedRequest) × (find_by_job rails d.job_id s ≡ some r)
                  × (is_final r.status ≡ false)
                  × (x.1.broadcasts ≡ s.broadcasts ++ (r.user_id, message_of r d) ∷ []))))

  finished :
      (f : Faults) (r : FeedRequest) (d : Outcome) (s c : Server rails)
      (x : Result (Unit {0}) × Server rails)
      → filter (is_open d.job_id) c.requests ≡ []
      → c.broadcasts ≡ s.broadcasts
      → find_by_job rails d.job_id s ≡ some r
      → is_final r.status ≡ false
      → Ends c (r.user_id, message_of r d) x
      → Settled f d s (verdict rails x)
  finished f r d s c x h k g n (inl ((q, b), v)) =
      inr (inr (rw (verdict_state x, q) h, inl (rw (verdict_state x) (b ∙ k))))
  finished f r d s c x h k g n (inr (q, b, v)) = inr (
      inr (
        rw (verdict_state x, q) h,
        inr (
          v,
          r,
          g,
          n,
          rw (verdict_state x) (b ∙ ap (λ bs. bs ++ (r.user_id, message_of r d) ∷ []) k),
        ),
      ))

  claimed-Settled :
      (f : Faults) (r : FeedRequest) (d : Outcome) (s c : Server rails) (updated : ℕ)
      → filter (is_open d.job_id) c.requests ≡ []
      → c.broadcasts ≡ s.broadcasts
      → find_by_job rails d.job_id s ≡ some r
      → is_final r.status ≡ false
      → Settled f d s (process_claimed rails r d (updated, c))
  claimed-Settled f r d s c updated h k g n = elim (Bool-cases (nat_beq updated 0)) [
    | inl e ↦ rw (e, process_claimed) (inr (inr (h, inl k)))
    | inr e ↦
        rw (e, process_claimed)
          (finished f r d s c (publish_result rails r d c) h k g n (publish_result-Ends r d c))
  ]

  some-ne-none : {m : Text} → ¬ (◌≡◌ {A = Option Text} (some m) none)
  some-ne-none h = cc

  locked-Settled :
      (f : Faults) (o : Option Text) (r : FeedRequest) (d : Outcome) (s : Server rails)
      → is_final d.status ≡ true
      → f.lock ≡ o
      → find_by_job rails d.job_id s ≡ some r
      → is_final r.status ≡ false
      → Settled f d s (locked rails o r d s)
  unfolding claim
  locked-Settled f none r d s h l g n =
      claimed-Settled f r d s (claim rails d.job_id d.status s).1
        (claim rails d.job_id d.status s).0 (none_open d.job_id d.status s.requests h) refl g n
  locked-Settled f (some m) r d s h l g n = inr (inl (refl, inr (λ e. some-ne-none (sym l ∙ e))))

  process-Settled :
      (f : Faults) (o : Option FeedRequest) (d : Outcome) (s : Server rails)
      → is_final d.status ≡ true
      → find_by_job rails d.job_id s ≡ o
      → Settled f d s (process rails f o d s)
  process-Settled f none d s h g = inl (refl, subst IsOver (sym g) tt)
  process-Settled f (some r) d s h g = elim (Bool-cases (is_final r.status)) [
    | inl e ↦ rw (e, process) (inl (refl, subst IsOver (sym g) e))
    | inr e ↦ rw (e, process) (locked-Settled f f.lock r d s h refl g e)
  ]

  searched-Settled :
      (f : Faults) (o : Option Text) (d : Outcome) (s : Server rails)
      → is_final d.status ≡ true
      → f.search ≡ o
      → Settled f d s (searched rails o f d s)
  searched-Settled f none d s h l = process-Settled f (find_by_job rails d.job_id s) d s h refl
  searched-Settled f (some m) d s h l = inr (inl (refl, inl (λ e. some-ne-none (sym l ∙ e))))

  process-IsOver :
      (g : Faults) (o : Option FeedRequest) (d : Outcome) (s : Server rails)
      → IsOver o
      → (process rails g o d s).1 ≡ s
  process-IsOver g none d s h = refl
  process-IsOver g (some r) d s h = rw h

  ack-ne-reject : ¬ (ack ≡ reject)
  ack-ne-reject h = cc

  module _ (parse : Text → Result Outcome) (payload : Text) (d : Outcome) (s : Server rails)
      (parsed : parse payload ≡ ok d) (final : is_final d.status ≡ true) (f : Faults) where
    pub work-Settled : Settled f d s (work rails parse f payload s)
    unfolding work
    work-Settled =
        subst (λ o. Settled f d s (work_on rails f o s)) (sym parsed)
          (searched-Settled f f.search d s final refl)

    -- Once a payload that is a result with a final status has been acknowledged, delivering it again
    -- changes nothing, whichever queries raise in either delivery.
    pub work-work :
        (g : Faults)
        → (work rails parse f payload s).0 ≡ ack
        → (work rails parse g payload (work rails parse f payload s).1).1
          ≡ (work rails parse f payload s).1
    work-work g v = elim work-Settled [
      | inl (e, over) ↦ rw e (
          work_state rails parse g payload d s parsed
            (process-IsOver g (find_by_job rails d.job_id s) d s over))
      | inr (inl (e, faulty)) ↦
          absurd (ack-ne-reject (sym v ∙ ap (λ (x : Verdict × Server rails). x.0) e))
      | inr (inr (h, k)) ↦
          work-nothing_open rails parse g payload d (work rails parse f payload s).1 parsed h
    ]

    -- If no query on the table of requests raises and a payload that is a result with a final status is
    -- rejected all the same: nothing has been sent, no row of the job is open any more, and however it
    -- is delivered again nothing changes.
    pub work_rejected :
        (g : Faults)
        → f.search ≡ none
        → f.lock ≡ none
        → (work rails parse f payload s).0 ≡ reject
        → let t = (work rails parse f payload s).1 in
          (t.broadcasts ≡ s.broadcasts)
          × (filter (is_open d.job_id) t.requests ≡ [])
          × ((work rails parse g payload t).1 ≡ t)
    work_rejected g searches locks v = elim work-Settled [
      | inl (e, over) ↦
          absurd (ack-ne-reject (sym (ap (λ (x : Verdict × Server rails). x.0) e) ∙ v))
      | inr (inl (e, inl faulty)) ↦ absurd (faulty searches)
      | inr (inl (e, inr faulty)) ↦ absurd (faulty locks)
      | inr (inr (h, inl same)) ↦ (
        same,
        h,
        work-nothing_open rails parse g payload d (work rails parse f payload s).1 parsed h,
      )
      | inr (inr (h, inr (a, r, found, n, more))) ↦ absurd (ack-ne-reject (sym a ∙ v))
    ]

  claimed_rows :
      (job status : Text) (s : Server rails)
      → is_final status ≡ true
      → filter (is_open job) (claim rails job status s).1.requests ≡ []
  unfolding claim
  claimed_rows job status s h = none_open job status s.requests h

  -- Two workers that have both found the row open: if the first takes the lock with a final status, the
  -- second updates no row and changes nothing.
  pub claim-claim :
      (job first second : Text) (s : Server rails)
      → is_final first ≡ true
      → claim rails job second (claim rails job first s).1 ≡ (0, (claim rails job first s).1)
  claim-claim job first second s h =
      claim_of_none rails job second (claim rails job first s).1 (claimed_rows job first s h)
