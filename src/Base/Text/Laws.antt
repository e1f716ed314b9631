-- ===== src/Base/Text/Laws.antt =====
-- Laws of the string operations.
use Prim.Native.Nat.{ℕ}
use mathlib.Core.Path.{◌≡◌, refl}
use mathlib.Core.Logic.{inl, inr}
use mathlib.Core.Bool.{true, false, ◌||◌}
use mathlib.Core.List.{[], ◌∷◌, ◌++◌}
use native.Mathlib.Omega.{arith}
use emp_apps.Base.Tests.{Bool-cases}
use emp_apps.Base.Text.{
  Text, truthy, or_else, is_space, trim_start, cons_trimmed, trim_end, trim, starts_with,
}

-- The first code unit, if there is one, is no white space.
abbrev pub StartsClean : Text → Type 0
StartsClean [] = Unit
StartsClean (c ∷ s) = is_space c ≡ false

-- The last code unit, if there is one, is no white space.
abbrev pub EndsClean : Text → Type 0
EndsClean [] = Unit
EndsClean (c ∷ []) = is_space c ≡ false
EndsClean (c ∷ d ∷ s) = EndsClean (d ∷ s)

trim_start-StartsClean : (s : Text) → StartsClean (trim_start s)
unfolding trim_start
trim_start-StartsClean [] = tt
trim_start-StartsClean (c ∷ s) = elim (Bool-cases (is_space c)) [
  | inl e ↦ rw e (trim_start-StartsClean s)
  | inr e ↦ rw e e
]

EndsClean-cons_trimmed : (c : ℕ) (s : Text) → EndsClean s → EndsClean (cons_trimmed c s)
EndsClean-cons_trimmed c [] h = elim (Bool-cases (is_space c)) [ inl e ↦ rw e tt | inr e ↦ rw e e ]
EndsClean-cons_trimmed c (d ∷ s) h = h

trim_end-EndsClean : (s : Text) → EndsClean (trim_end s)
unfolding trim_end
trim_end-EndsClean [] = tt
trim_end-EndsClean (c ∷ s) = EndsClean-cons_trimmed c (trim_end s) (trim_end-EndsClean s)

cons_trimmed_of_clean : (c : ℕ) (s : Text) → is_space c ≡ false → cons_trimmed c s ≡ c ∷ s
cons_trimmed_of_clean c [] h = rw h
cons_trimmed_of_clean c (d ∷ s) h = refl

trim_end-StartsClean : (s : Text) → StartsClean s → StartsClean (trim_end s)
unfolding trim_end
trim_end-StartsClean [] h = tt
trim_end-StartsClean (c ∷ s) h = rw (cons_trimmed_of_clean c (trim_end s) h) h

pub trim-StartsClean : (s : Text) → StartsClean (trim s)
unfolding trim
trim-StartsClean s = trim_end-StartsClean (trim_start s) (trim_start-StartsClean s)

pub trim-EndsClean : (s : Text) → EndsClean (trim s)
unfolding trim
trim-EndsClean s = trim_end-EndsClean (trim_start s)

trim_start_of_StartsClean : (s : Text) → StartsClean s → trim_start s ≡ s
unfolding trim_start
trim_start_of_StartsClean [] h = refl
trim_start_of_StartsClean (c ∷ s) h = rw h

trim_end_of_EndsClean : (s : Text) → EndsClean s → trim_end s ≡ s
unfolding trim_end
trim_end_of_EndsClean [] h = refl
trim_end_of_EndsClean (c ∷ []) h = rw h
trim_end_of_EndsClean (c ∷ d ∷ s) h = rw (trim_end_of_EndsClean (d ∷ s) h)

-- A text with clean ends is left as it is.
pub trim_of_clean : (s : Text) → StartsClean s → EndsClean s → trim s ≡ s
unfolding trim
trim_of_clean s h k = rw (trim_start_of_StartsClean s h) (trim_end_of_EndsClean s k)

pub trim-trim : (s : Text) → trim (trim s) ≡ trim s
trim-trim s = trim_of_clean (trim s) (trim-StartsClean s) (trim-EndsClean s)

pub starts_with-append : (p s : Text) → starts_with (p ++ s) p ≡ true
unfolding starts_with
starts_with-append [] [] = refl
starts_with-append [] (c ∷ s) = refl
starts_with-append (c ∷ p) s = ground (arith, starts_with-append p s)

pub truthy-append : (s t : Text) → truthy (s ++ t) ≡ (truthy s || truthy t)
truthy-append [] t = refl
truthy-append (c ∷ s) t = refl

-- A default that is not empty makes the whole not empty.
pub truthy-or_else : (s d : Text) → truthy d ≡ true → truthy (or_else s d) ≡ true
truthy-or_else [] d h = h
truthy-or_else (c ∷ s) d h = refl
