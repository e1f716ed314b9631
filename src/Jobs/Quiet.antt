-- ===== src/Jobs/Quiet.antt =====
-- Writing the stories of a result changes no row of requests and sends nothing.
use emp_apps.Base.{
  ℕ, ◌≡◌, refl, ◌∙◌, List, [], ◌∷◌, map, Option, inl, inr, Bool-cases, list_eq, nat_eq, Result, ok,
  err,
}
use emp_apps.Base.Text.{Text}
use emp_apps.Jobs.{
  ResultItem, Rails, Server, J, bind, row_of, source_name, ◌>>=◌, ◌>>◌, on_tables, attach,
  save_group, save_groups,
}

module _ (rails : Rails) where
  -- A state that has the same requests and messages.
  abbrev pub IsQuiet : Server rails → Server rails → Type 0
  IsQuiet s t = (t.requests ≡ s.requests) × (t.broadcasts ≡ s.broadcasts)

  trans-IsQuiet : (s t u : Server rails) → IsQuiet s t → IsQuiet t u → IsQuiet s u
  trans-IsQuiet s t u (a, b) (c, d) = (c ∙ a, d ∙ b)

  pub bind-IsQuiet :
      {A B : Type 0} (s : Server rails) (x : Result A × Server rails) (f : A → J rails B)
      → IsQuiet s x.1
      → ((a : A) (t : Server rails) → IsQuiet t (f a t).1)
      → IsQuiet s (bind rails x f).1
  bind-IsQuiet s (ok a, t) f h k = trans-IsQuiet s t (f a t).1 h (k a t)
  bind-IsQuiet s (err m, t) f h k = h

  abbrev pub Quiet : {A : Type 0} → J rails A → Type 0
  Quiet m = (s : Server rails) → IsQuiet s (m s).1

  bind-Quiet :
      {A B : Type 0} (m : J rails A) (f : A → J rails B)
      → Quiet m
      → ((a : A) → Quiet (f a))
      → Quiet (◌>>=◌ rails m f)
  bind-Quiet m f h k s = bind-IsQuiet s (m s) f (h s) k

  attach-Quiet : (request feed : ℕ) → Quiet (attach rails request feed)
  attach-Quiet request feed s = elim (Bool-cases (rails.includes_feed request feed s.tables)) [
    | inl e ↦ rw e (refl, refl)
    | inr e ↦ rw e (refl, refl)
  ]

  on_tables-Quiet :
      {A : Type 0} (f : rails.Tables → Result A × rails.Tables) → Quiet (on_tables rails f)
  on_tables-Quiet f s = (refl, refl)

  save_group-Quiet :
      (request : ℕ) (url : Option Text) (items : List ResultItem)
      → Quiet (save_group rails request (url, items))
  unfolding save_group
  save_group-Quiet request url items =
      let inserted : ℕ → J rails (Unit {0}) =
        λ feed. on_tables rails (rails.insert_all (map (row_of feed) items)) in
      bind-Quiet (on_tables rails (rails.find_or_create_feed url (source_name items)))
        (λ feed. ◌>>◌ rails (attach rails request feed) (inserted feed))
        (on_tables-Quiet (rails.find_or_create_feed url (source_name items)))
        (λ feed.
          bind-Quiet (attach rails request feed) (λ _. inserted feed) (attach-Quiet request feed)
            (λ _. on_tables-Quiet (rails.insert_all (map (row_of feed) items))))

  pub save_groups-Quiet :
      (request : ℕ) (gs : List (Option Text × List ResultItem))
      → Quiet (save_groups rails request gs)
  unfolding save_groups
  save_groups-Quiet request [] s = (refl, refl)
  save_groups-Quiet request ((url, items) ∷ gs) s =
      bind-Quiet (save_group rails request (url, items)) (λ _. save_groups rails request gs)
        (save_group-Quiet request url items) (λ _. save_groups-Quiet request gs) s
