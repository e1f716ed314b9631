-- ===== src/Jobs/Publish/Rows.antt =====
-- What saving a record does to the rows of its identifier.
use emp_apps.Base.{
  ℕ, ◌≡◌, refl, sym, ◌∙◌, true, false, List, [], ◌∷◌, map, inl, inr, Bool-cases, ◌==◌, list_eq,
  nat_eq, nat_beq, All,
}
use emp_apps.Base.Text.{Text}
use emp_apps.Jobs.{FeedRequest}
use emp_apps.Jobs.Publish.{Memory, changed, written}

-- The rows of an identifier have a status.
abbrev pub Shows : ℕ → Text → List FeedRequest → Type 0
Shows id status rs = All (λ q. nat_beq q.id id ≡ true → q.status ≡ status) rs

changed_status : (saved new held : Text) → held ≡ saved → changed saved new held ≡ new
changed_status saved new held h = elim (Bool-cases (new == saved)) [
  | inl e ↦ rw e (h ∙ sym (((list_eq {A = ℕ}).same_iff new saved).0 e))
  | inr e ↦ rw e refl
]

pub written-Shows :
    (id : ℕ) (m : Memory) (rs : List FeedRequest)
    → m.row.id ≡ id
    → Shows id m.saved.status rs
    → Shows id m.row.status (map (written m) rs)
written-Shows id m [] e h = tt
written-Shows id m (q ∷ rs) e (h, hs) = (here, written-Shows id m rs e hs)
  where
    here : nat_beq (written m q).id id ≡ true → (written m q).status ≡ m.row.status
    here = elim (Bool-cases (nat_beq q.id id)) [
      | inl k ↦ rw (e, k) (λ _. changed_status m.saved.status m.row.status q.status (h k))
      | inr k ↦ rw (e, k) (λ l. absurd (false-ne-true (sym k ∙ l)))
    ]
      where
        false-ne-true : ¬ (false ≡ true)
        false-ne-true h = cc
