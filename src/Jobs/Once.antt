-- ===== src/Jobs/Once.antt =====
-- Any number of deliveries.
use emp_apps.Base.{
  suc, ◌≤◌, length-append, All, ◌≡◌, ◌⊎◌, refl, sym, ap, subst, ◌∙◌, true, false, List, [], ◌∷◌,
  ◌++◌, some, arith, inl, inr, list_eq, nat_eq, filter, length, Result, ok,
}
use emp_apps.Base.Text.{Text}
use emp_apps.Dashboard.{is_final}
use emp_apps.Jobs.{
  Faults, FeedRequest, Outcome, Rails, Verdict, ack, Server, find_by_job, is_open, message_of, work,
}
use emp_apps.Jobs.Lock.{work-nothing_open}
use emp_apps.Jobs.Delivery.{work-Settled}

module _ (rails : Rails) (parse : Text → Result Outcome) (job : Text) where
  -- The broker's deliveries, one after the other, each with what its queries raise.
  unfoldable pub deliver_all : List (Faults × Text) → Server rails → Server rails
  unfolding work
  deliver_all [] s = s
  deliver_all ((f, p) ∷ ps) s = deliver_all ps (work rails parse f p s).1

  -- A final result of the job.
  pub record IsResult (payload : Text) : Type 0 where
    pub outcome : Outcome
    pub parsed : parse payload ≡ ok outcome
    pub of_job : outcome.job_id ≡ job
    pub final : is_final outcome.status ≡ true

  closed :
      (ps : List (Faults × Text)) (s : Server rails)
      → All (λ p. IsResult p.1) ps
      → filter (is_open job) s.requests ≡ []
      → deliver_all ps s ≡ s
  unfolding deliver_all
  closed [] s a h = refl
  closed ((f, p) ∷ ps) s (i, is) h =
      let same =
        work-nothing_open rails parse f p i.outcome s i.parsed
          (subst (λ j. filter (is_open j) s.requests ≡ []) (sym i.of_job) h) in
      ap (deliver_all ps) same ∙ closed ps s is h

  -- However often the broker delivers final results of one job, one after the other, alike or not:
  -- at most one message is sent.
  pub deliver_all_once :
      (ps : List (Faults × Text)) (s : Server rails)
      → All (λ p. IsResult p.1) ps
      → length (deliver_all ps s).broadcasts ≤ suc (length s.broadcasts)
  unfolding deliver_all
  deliver_all_once [] s a = omega arith
  deliver_all_once ((f, p) ∷ ps) s (i, is) =
      elim (work-Settled rails parse p i.outcome s i.parsed i.final f) [
        | inl (e, over) ↦
            subst
              (λ (x : Verdict × Server rails).
                length (deliver_all ps x.1).broadcasts ≤ suc (length s.broadcasts))
              (sym e) (deliver_all_once ps s is)
        | inr (inl (e, faulty)) ↦
            subst
              (λ (x : Verdict × Server rails).
                length (deliver_all ps x.1).broadcasts ≤ suc (length s.broadcasts))
              (sym e) (deliver_all_once ps s is)
        | inr (inr (h, k)) ↦
            let rest = closed ps (work rails parse f p s).1 is (
              subst (λ j. filter (is_open j) (work rails parse f p s).1.requests ≡ []) i.of_job
                h) in
            rw rest (sent k)
      ]
    where
      sent :
          ((work rails parse f p s).1.broadcasts ≡ s.broadcasts)
            ⊎ (((work rails parse f p s).0 ≡ ack)
                × (r : FeedRequest) × (find_by_job rails i.outcome.job_id s ≡ some r)
                × (is_final r.status ≡ false)
                × ((work rails parse f p s).1.broadcasts
                    ≡ s.broadcasts ++ (r.user_id, message_of r i.outcome) ∷ []))
          → length (work rails parse f p s).1.broadcasts ≤ suc (length s.broadcasts)
      sent (inl e) = rw e (omega arith)
      sent (inr (a, r, f, n, e)) =
          rw (e, length-append s.broadcasts ((r.user_id, message_of r i.outcome) ∷ []))
            (omega arith)
