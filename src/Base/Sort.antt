-- ===== src/Base/Sort.antt =====
-- `Array.prototype.sort` with a comparator `(a, b) => time(b) - time(a)`: a stable sort, where a
-- difference that is not a number counts as 0. A time that is not a number is `none`.
pub mod Laws
pub mod Unique
use emp_apps.Base.{ℕ, Bool, true, false, List, [], ◌∷◌, Option, none, some, ltb, if◌then◌else◌}

-- Whether the comparator is positive, so that `a` has to stand behind `b`.
abbrev pub goes_after : Option ℕ → Option ℕ → Bool
goes_after (some a) (some b) = ltb a b
goes_after _ _ = false

module _ {ℓ} {A : Type ℓ} (time : A → Option ℕ) where
  -- Before the first element that it need not stand behind.
  unfoldable pub insert : A → List A → List A
  insert x [] = x ∷ []
  insert x (y ∷ ys) = if goes_after (time x) (time y) then y ∷ insert x ys else x ∷ y ∷ ys

  unfoldable pub sort : List A → List A
  unfolding insert
  sort [] = []
  sort (x ∷ xs) = insert x (sort xs)
