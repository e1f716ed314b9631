-- ===== src/FeedForm/Fields.antt =====
-- The fields of the form under its handlers.
use emp_apps.Base.{
  ℕ, zero, suc, ◌+◌, ◌≤◌, ◌<◌, ◌≡◌, refl, ap, ◌∙◌, not, List, [], ◌∷◌, ◌++◌, some, arith, ltb,
  nat_beq, nat_beq-true, nat_beq-false, nat_beq_iff, inl, inr, subst, Bool-cases, if◌then◌else◌,
  length, set, get_elem?, take, drop, filter_idx, length-append, length-set, get_elem?-set_self,
  get_elem?-set_ne, append-nil,
}
use emp_apps.Base.Text.{Text}
use emp_apps.FeedForm.{
  handle_url_change, add_field, remove_field, Edit, change, add, remove, edit, run,
}

-- Typing into a field replaces its text and leaves the number of fields and all other fields alone.
pub get_elem?-handle_url_change :
    (i j : ℕ) (v : Text) (urls : List Text)
    → i < length urls
    → (length (handle_url_change i v urls) ≡ length urls)
      × (get_elem? (handle_url_change i v urls) j
          ≡ (if nat_beq i j then some v else get_elem? urls j))
unfolding handle_url_change
get_elem?-handle_url_change i j v urls h = elim (Bool-cases (nat_beq i j)) [
  | inl e ↦
      let same : i ≡ j = (nat_beq_iff i j).0 e in
      rw e (
        length-set urls i v,
        subst (λ k. get_elem? (set urls i v) k ≡ some v) same (get_elem?-set_self urls i v h),
      )
  | inr e ↦ rw e (length-set urls i v, get_elem?-set_ne urls i j v (λ same. absurd (ground arith)))
]

-- A filter by index that keeps every index from `i` on.
filter_idx_past :
    (k i : ℕ) (urls : List Text) → k < i → filter_idx (λ j. not (nat_beq j k)) i urls ≡ urls
filter_idx_past k i [] h = refl
filter_idx_past k i (u ∷ urls) h = ground (arith, filter_idx_past k (suc i) urls)

filter_idx_at :
    (k i n : ℕ) (urls : List Text)
    → n ≡ i + k
    → filter_idx (λ j. not (nat_beq j n)) i urls ≡ take k urls ++ drop (suc k) urls
filter_idx_at zero i n [] e = refl
filter_idx_at (suc k) i n [] e = refl
filter_idx_at zero i n (u ∷ urls) e =
    rw (nat_beq-true i n (omega arith)) (filter_idx_past n (suc i) urls (omega arith))
filter_idx_at (suc k) i n (u ∷ urls) e =
    rw (nat_beq-false i n (omega arith)) (ap (u ∷◌) (filter_idx_at k (suc i) n urls (omega arith)))

-- "Remove" takes out the field at its index and keeps the order of the others; the only field stays.
pub remove_field_lem :
    (i : ℕ) (urls : List Text)
    → remove_field i urls ≡ (if ltb 1 (length urls) then take i urls ++ drop (suc i) urls else urls)
unfolding remove_field
remove_field_lem i urls = rw (filter_idx_at i 0 i urls (omega arith))

take-length : (urls more : List Text) → take (length urls) (urls ++ more) ≡ urls
take-length [] [] = refl
take-length [] (m ∷ more) = refl
take-length (u ∷ urls) more = ap (u ∷◌) (take-length urls more)

drop_past : (u : Text) (urls : List Text) → drop (suc (length urls)) (urls ++ u ∷ []) ≡ []
drop_past u [] = refl
drop_past u (v ∷ urls) = drop_past u urls

-- Removing the field that was just added gives the form back.
pub remove_field-add_field :
    (urls : List Text) → 0 < length urls → remove_field (length urls) (add_field urls) ≡ urls
unfolding add_field
remove_field-add_field urls h =
    remove_field_lem (length urls) (urls ++ [] ∷ [])
    ∙ ground (
      arith,
      length-append urls ([] ∷ []),
      take-length urls ([] ∷ []),
      drop_past [] urls,
      append-nil urls,
    )

length-filter_idx :
    (k i : ℕ) (urls : List Text)
    → length urls ≤ length (filter_idx (λ j. not (nat_beq j k)) i urls) + 1
length-filter_idx k i [] = omega arith
length-filter_idx k i (u ∷ urls) =
    ground (arith, length-filter_idx k (suc i) urls, filter_idx_past k (suc i) urls)

edit-pos : (urls : List Text) (e : Edit) → 0 < length urls → 0 < length (edit urls e)
unfolding edit
edit-pos urls (change i v) h = omega (arith, length-set urls i v)
edit-pos urls add h = omega (arith, length-append urls ([] ∷ []))
edit-pos urls (remove i) h = ground (arith, length-filter_idx i 0 urls)

-- Whatever the user does, the form that starts with one field never loses its last.
pub run-pos : (urls : List Text) (es : List Edit) → 0 < length urls → 0 < length (run urls es)
unfolding run
run-pos urls [] h = h
run-pos urls (e ∷ es) h = run-pos (edit urls e) es (edit-pos urls e h)
