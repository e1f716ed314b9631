-- ===== src/Base/Sort/Laws.antt =====
-- The sort rearranges; where every time is a number the result descends and ties keep their order.
use mathlib.Core.List.{Perm}
use mathlib.Core.List.Perm
use emp_apps.Base.{
  ℕ, ◌≤◌, ◌≡◌, refl, ◌∙◌, Bool, true, false, List, [], ◌∷◌, Option, none, some, arith, inl, inr,
  nat_beq, Bool-cases, filter, All,
}
use emp_apps.Base.Sort.{goes_after, insert, sort}

abbrev pub is_at : ℕ → Option ℕ → Bool
is_at k none = false
is_at k (some t) = nat_beq t k

-- `a` is no earlier than `b`, and both are numbers.
abbrev pub NoEarlier : Option ℕ → Option ℕ → Type 0
NoEarlier (some a) (some b) = b ≤ a
NoEarlier _ _ = ⊥

abbrev pub IsTime : Option ℕ → Type 0
IsTime none = ⊥
IsTime (some t) = Unit

module _ {ℓ} {A : Type ℓ} (time : A → Option ℕ) where
  -- Latest first, over elements whose times are numbers.
  abbrev pub IsDescending : List A → Type 0
  IsDescending [] = Unit
  IsDescending (x ∷ xs) =
      IsTime (time x) × All (λ y. NoEarlier (time x) (time y)) xs × IsDescending xs

  insert-perm : (x : A) (xs : List A) → Perm (insert time x xs) (x ∷ xs)
  unfolding insert
  insert-perm x [] = Perm.rfl
  insert-perm x (y ∷ ys) = elim (Bool-cases (goes_after (time x) (time y))) [
    | inl e ↦ rw e (Perm.trans (Perm.cons y (insert-perm x ys)) (Perm.swap x y ys))
    | inr e ↦ rw e Perm.rfl
  ]

  -- Nothing is lost or invented, whatever the times are.
  pub sort-perm : (xs : List A) → Perm (sort time xs) xs
  unfolding sort
  sort-perm [] = Perm.rfl
  sort-perm (x ∷ xs) = Perm.trans (insert-perm x (sort time xs)) (Perm.cons x (sort-perm xs))

  All-insert : (P : A → Type 0) (x : A) (xs : List A) → P x → All P xs → All P (insert time x xs)
  unfolding insert
  All-insert P x [] h hs = (h, tt)
  All-insert P x (y ∷ ys) h (k, hs) = elim (Bool-cases (goes_after (time x) (time y))) [
    | inl e ↦ rw e (k, All-insert P x ys h hs)
    | inr e ↦ rw e (h, (k, hs))
  ]

  NoEarlier-of_goes_after : (a b : Option ℕ) → goes_after a b ≡ true → NoEarlier b a
  NoEarlier-of_goes_after none b h = absurd (ground arith)
  NoEarlier-of_goes_after (some a) none h = absurd (ground arith)
  NoEarlier-of_goes_after (some a) (some b) h = ground arith

  NoEarlier-of_not : (a b : Option ℕ) → IsTime a → IsTime b → goes_after a b ≡ false → NoEarlier a b
  NoEarlier-of_not none b h k e = absurd h
  NoEarlier-of_not (some a) none h k e = absurd k
  NoEarlier-of_not (some a) (some b) h k e = ground arith

  NoEarlier-trans : (a b c : Option ℕ) → NoEarlier a b → NoEarlier b c → NoEarlier a c
  NoEarlier-trans none b c h k = absurd h
  NoEarlier-trans (some a) none c h k = absurd h
  NoEarlier-trans (some a) (some b) none h k = absurd k
  NoEarlier-trans (some a) (some b) (some c) h k = omega arith

  All-NoEarlier-trans :
      (a b : Option ℕ) (xs : List A)
      → NoEarlier a b
      → All (λ y. NoEarlier b (time y)) xs
      → All (λ y. NoEarlier a (time y)) xs
  All-NoEarlier-trans a b [] h hs = tt
  All-NoEarlier-trans a b (x ∷ xs) h (k, hs) =
      (NoEarlier-trans a b (time x) h k, All-NoEarlier-trans a b xs h hs)

  insert-IsDescending :
      (x : A) (xs : List A) → IsTime (time x) → IsDescending xs → IsDescending (insert time x xs)
  unfolding insert
  insert-IsDescending x [] h d = (h, tt, tt)
  insert-IsDescending x (y ∷ ys) h (k, below, d) =
      elim (Bool-cases (goes_after (time x) (time y))) [
        | inl e ↦ rw e (
          k,
          All-insert (λ z. NoEarlier (time y) (time z)) x ys
              (NoEarlier-of_goes_after (time x) (time y) e) below,
          insert-IsDescending x ys h d,
        )
        | inr e ↦
            let first = NoEarlier-of_not (time x) (time y) h k e in
            rw e (h, (first, All-NoEarlier-trans (time x) (time y) ys first below), (k, below, d))
      ]

  -- Where all times are numbers, the latest stand first.
  pub sort-IsDescending :
      (xs : List A) → All (λ x. IsTime (time x)) xs → IsDescending (sort time xs)
  unfolding sort
  sort-IsDescending [] h = tt
  sort-IsDescending (x ∷ xs) (h, hs) =
      insert-IsDescending x (sort time xs) h (sort-IsDescending xs hs)

  not_at_of_goes_after :
      (k : ℕ) (a b : Option ℕ) → goes_after a b ≡ true → is_at k a ≡ true → is_at k b ≡ false
  not_at_of_goes_after k none b h e = cc
  not_at_of_goes_after k (some a) none h e = cc
  not_at_of_goes_after k (some a) (some b) h e = ground arith

  filter-insert :
      (k : ℕ) (x : A) (xs : List A)
      → filter (λ y. is_at k (time y)) (insert time x xs) ≡ filter (λ y. is_at k (time y)) (x ∷ xs)
  unfolding insert
  filter-insert k x [] = refl
  filter-insert k x (y ∷ ys) = elim (Bool-cases (goes_after (time x) (time y))) [
    | inl e ↦ rw e (ground (arith, filter-insert k x ys, not_at_of_goes_after k (time x) (time y)))
    | inr e ↦ rw e
  ]

  -- Elements with one time keep their order, whatever the other times are.
  pub sort_stable :
      (k : ℕ) (xs : List A)
      → filter (λ y. is_at k (time y)) (sort time xs) ≡ filter (λ y. is_at k (time y)) xs
  unfolding sort
  sort_stable k [] = refl
  sort_stable k (x ∷ xs) = filter-insert k x (sort time xs) ∙ ground (arith, sort_stable k xs)
