-- ===== src/Base/Sort/Unique.antt =====
-- A list is determined by its being in descending order and by the order of the elements of each time.
use emp_apps.Base.{
  ℕ, ◌<◌, ◌≡◌, ◌≢◌, refl, sym, ap, ap₂, ◌∙◌, true, false, List, [], ◌∷◌, Option, none, some, arith,
  inl, inr, Bool-cases, filter, All,
}
use emp_apps.Base.Sort.{sort}
use emp_apps.Base.Sort.Laws.{is_at, NoEarlier, IsTime, IsDescending, sort-IsDescending, sort_stable}

IsTime-some : (o : Option ℕ) → IsTime o → (a : ℕ) × (o ≡ some a)
IsTime-some none h = absurd h
IsTime-some (some a) h = (a, refl)

is_at_self : (a : ℕ) (o : Option ℕ) → o ≡ some a → is_at a o ≡ true
is_at_self a o e = rw e (ground arith)

module _ {ℓ} {A : Type ℓ} (time : A → Option ℕ) where
  abbrev pub at : ℕ → List A → List A
  at k xs = filter (λ y. is_at k (time y)) xs

  not_at_of_earlier :
      (a b : ℕ) (o p : Option ℕ) → o ≡ some b → b < a → NoEarlier o p → is_at a p ≡ false
  not_at_of_earlier a b none p e h n = absurd n
  not_at_of_earlier a b (some c) none e h n = absurd n
  not_at_of_earlier a b (some c) (some d) e h n = ground arith

  at_later :
      (a b : ℕ) (o : Option ℕ) (ys : List A)
      → o ≡ some b
      → b < a
      → All (λ z. NoEarlier o (time z)) ys
      → at a ys ≡ []
  at_later a b o [] e h n = refl
  at_later a b o (y ∷ ys) e h (n, ns) =
      rw (not_at_of_earlier a b o (time y) e h n) (at_later a b o ys e h ns)

  at-cons : (a : ℕ) (x : A) (xs : List A) → time x ≡ some a → at a (x ∷ xs) ≡ x ∷ at a xs
  at-cons a x xs e = rw (is_at_self a (time x) e)

  at-cons_later :
      (a b : ℕ) (y : A) (ys : List A)
      → time y ≡ some b
      → b < a
      → IsDescending time (y ∷ ys)
      → at a (y ∷ ys) ≡ []
  at-cons_later a b y ys e h (_, n, _) =
      rw (not_at_of_earlier a b (some b) (time y) refl h (rw e (omega arith)))
        (at_later a b (time y) ys e h n)

  cons-ne-nil : (x : A) (xs : List A) → x ∷ xs ≢ []
  cons-ne-nil x xs e = cc

  -- The heads have one time.
  heads_le :
      (a b : ℕ) (x y : A) (xs ys : List A)
      → time x ≡ some a
      → time y ≡ some b
      → IsDescending time (y ∷ ys)
      → at a (x ∷ xs) ≡ at a (y ∷ ys)
      → ¬ (b < a)
  heads_le a b x y xs ys e f d s h =
      cons-ne-nil x (at a xs) (sym (at-cons a x xs e) ∙ s ∙ at-cons_later a b y ys f h d)

  at-tails : (k : ℕ) (x : A) (xs ys : List A) → at k (x ∷ xs) ≡ at k (x ∷ ys) → at k xs ≡ at k ys
  at-tails k x xs ys e = elim (Bool-cases (is_at k (time x))) [
    | inl t ↦ tails (at k xs) (at k ys) (rw t at e)
    | inr t ↦ rw t at e
  ]
    where
      tails : (l r : List A) → x ∷ l ≡ x ∷ r → l ≡ r
      tails l r h = cc

  pub IsDescending-eq :
      (xs ys : List A)
      → IsDescending time xs
      → IsDescending time ys
      → ((k : ℕ) → at k xs ≡ at k ys)
      → xs ≡ ys
  IsDescending-eq [] [] d e s = refl
  IsDescending-eq [] (y ∷ ys) d (t, _, _) s =
      let (b, f) = IsTime-some (time y) t in
      absurd (cons-ne-nil y (at b ys) (sym (at-cons b y ys f) ∙ sym (s b)))
  IsDescending-eq (x ∷ xs) [] (t, _, _) e s =
      let (a, f) = IsTime-some (time x) t in
      absurd (cons-ne-nil x (at a xs) (sym (at-cons a x xs f) ∙ s a))
  IsDescending-eq (x ∷ xs) (y ∷ ys) (t, n, d) (u, m, e) s =
      let (a, f) = IsTime-some (time x) t in
      let (b, g) = IsTime-some (time y) u in
      let not_later = heads_le a b x y xs ys f g (u, m, e) (s a) in
      let not_earlier = heads_le b a y x ys xs g f (t, n, d) (sym (s b)) in
      let same : b ≡ a = omega arith in
      let heads : x ≡ y = first_of_lists a (g ∙ ap some same) f in
      ap₂ ◌∷◌ heads (
        IsDescending-eq xs ys d e
          (λ k. at-tails k x xs ys (s k ∙ ap (λ z. at k (z ∷ ys)) (sym heads))))
    where
      first_of_lists : (a : ℕ) → time y ≡ some a → time x ≡ some a → x ≡ y
      first_of_lists a g f =
          heads_eq (at a xs) (at a ys) (sym (at-cons a x xs f) ∙ s a ∙ at-cons a y ys g)
        where
          heads_eq : (l r : List A) → x ∷ l ≡ y ∷ r → x ≡ y
          heads_eq l r h = cc

  -- Whatever stable sort is used, on times that are numbers it gives what `sort` gives.
  pub sort_unique :
      (xs ys : List A)
      → All (λ x. IsTime (time x)) xs
      → IsDescending time ys
      → ((k : ℕ) → at k ys ≡ at k xs)
      → ys ≡ sort time xs
  sort_unique xs ys h d s =
      IsDescending-eq ys (sort time xs) d (sort-IsDescending time xs h)
        (λ k. s k ∙ sym (sort_stable time k xs))
