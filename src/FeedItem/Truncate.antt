-- ===== src/FeedItem/Truncate.antt =====
-- Descriptions that are cut.
use emp_apps.Base.{
  ℕ, zero, suc, ◌+◌, ◌≤◌, ◌<◌, ◌≡◌, refl, ap, [], ◌∷◌, ◌++◌, some, arith, leb, if◌then◌else◌,
  length, take, get_elem?, length-take, length-append,
}
use emp_apps.Base.Text.{Text, js}
use emp_apps.FeedItem.{truncate_text}

take-take-append : (n : ℕ) (t dots : Text) → n ≤ length t → take n (take n t ++ dots) ≡ take n t
take-take-append zero t dots h = refl
take-take-append (suc n) [] dots h = absurd (omega arith)
take-take-append (suc n) (c ∷ t) dots h = ap (c ∷◌) (take-take-append n t dots (omega arith))

-- What is shown begins with the first `max` code units of the text, and is as long as the text if that
-- has at most `max`, or longer than `max` by the three dots if it has more.
pub truncate_text_lem :
    (max : ℕ) (t : Text)
    → (take max (truncate_text max (some t)) ≡ take max t)
      × (length (truncate_text max (some t)) ≡ (if leb (length t) max then length t else max + 3))
unfolding truncate_text js
truncate_text_lem max [] = ground arith
truncate_text_lem max (c ∷ t) = ground (
  arith,
  take-take-append max (c ∷ t) (js "..."),
  length-append (take max (c ∷ t)) (js "..."),
  length-take max (c ∷ t),
)

take_last :
    (n c : ℕ) (t dots : Text)
    → get_elem? t n ≡ some c
    → (get_elem? (take (suc n) t ++ dots) n ≡ some c)
      × (get_elem? (take (suc n) t ++ dots) (suc n) ≡ get_elem? dots 0)
take_last n c [] dots h = absurd (ground arith)
take_last zero c (d ∷ t) [] h = (h, refl)
take_last zero c (d ∷ t) (e ∷ dots) h = (h, refl)
take_last (suc n) c (d ∷ t) dots h = take_last n c t dots h

get_elem?-lt : (t : Text) (i c : ℕ) → get_elem? t i ≡ some c → i < length t
get_elem?-lt [] i c h = absurd (ground arith)
get_elem?-lt (d ∷ t) zero c h = omega arith
get_elem?-lt (d ∷ t) (suc i) c h = omega (arith, get_elem?-lt t i c h)

-- The cut is made between code units: a surrogate pair that stands across it is torn, its first half is
-- shown and a dot follows.
pub truncate_text-tears_pairs :
    (n hi lo : ℕ) (t : Text)
    → get_elem? t n ≡ some hi
    → get_elem? t (suc n) ≡ some lo
    → (get_elem? (truncate_text (suc n) (some t)) n ≡ some hi)
      × (get_elem? (truncate_text (suc n) (some t)) (suc n) ≡ some b'.')
unfolding truncate_text js
truncate_text-tears_pairs n hi lo [] h k = absurd (ground arith)
truncate_text-tears_pairs n hi lo (c ∷ t) h k =
    let len = get_elem?-lt (c ∷ t) (suc n) lo k in
    let last = take_last n hi (c ∷ t) (js "...") h in ground (arith)
