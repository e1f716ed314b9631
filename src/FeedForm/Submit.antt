-- ===== src/FeedForm/Submit.antt =====
-- What the form submits.
use emp_apps.Base.{
  ℕ, suc, Bool, not, ltb, ◌&&◌, if◌then◌else◌, length-map, ◌<◌, ◌≡◌, refl, true, false, List, [],
  ◌∷◌, map, none, some, arith, Bool-cases, inl, inr, length, filter, All, filter-append, map-append,
  append-nil, ap, subst,
}
use emp_apps.Base.Text.{Text, js, truthy, trim}
use emp_apps.Base.Text.Laws.{trim-trim}
use emp_apps.FeedForm.{
  fields_from, is_valid, are_valid, press, view, active_urls, handle_submit, is_submit_disabled,
  add_field,
}

-- A URL as it is submitted: not empty, and with no white space at its ends.
abbrev pub IsTidy : Text → Type 0
IsTidy u = (truthy u ≡ true) × (trim u ≡ u)

pub active_urls-IsTidy : (urls : List Text) → All IsTidy (active_urls urls)
unfolding active_urls
active_urls-IsTidy [] = tt
active_urls-IsTidy (u ∷ urls) = elim (Bool-cases (truthy (trim u))) [
  | inl e ↦ rw e ((e, trim-trim u), active_urls-IsTidy urls)
  | inr e ↦ rw e (active_urls-IsTidy urls)
]

active_urls_of_IsTidy : (urls : List Text) → All IsTidy urls → active_urls urls ≡ urls
unfolding active_urls
active_urls_of_IsTidy [] h = refl
active_urls_of_IsTidy (u ∷ urls) ((t, e), h) = rw (e, t) (ap (u ∷◌) (active_urls_of_IsTidy urls h))

-- A field that the browser lets pass.
abbrev pub holds_url : (Text → Bool) → Text → Bool
holds_url is_url u = truthy u && is_url u

abbrev pub hold_urls : (Text → Bool) → List Text → Bool
hold_urls is_url [] = true
hold_urls is_url (u ∷ urls) = holds_url is_url u && hold_urls is_url urls

are_valid-fields_from :
    (is_url : Text → Bool) (n : ℕ) (b : Bool) (urls : List Text)
    → are_valid is_url (fields_from n b urls) ≡ hold_urls is_url urls
unfolding fields_from is_valid js
are_valid-fields_from is_url n b [] = refl
are_valid-fields_from is_url n b (u ∷ urls) =
    ground (arith, are_valid-fields_from is_url (suc n) b urls)

module _ (is_url : Text → Bool)
    (not_blank : (u : Text) → is_url u ≡ true → truthy (trim u) ≡ true) where
  -- Where every field holds a URL, none is dropped.
  active_urls_of_held :
      (urls : List Text) → hold_urls is_url urls ≡ true → active_urls urls ≡ map trim urls
  unfolding active_urls
  active_urls_of_held [] h = refl
  active_urls_of_held (u ∷ urls) h =
      let url : is_url u ≡ true = ground arith in
      rw (not_blank u url) (ap (trim u ∷◌) (active_urls_of_held urls (ground arith)))

  -- In a browser that takes no text of white space alone for a URL, pressing the button of a form with at
  -- least one field: if it is not loading and every field holds what the browser takes for a URL,
  -- `onSubmit` is called with the fields' texts, all of them and in their order, without the white space
  -- at their ends; in every other case it is not called.
  pub press-view :
      (loading : Bool) (urls : List Text)
      → 0 < length urls
      → press is_url loading urls
        ≡ (if not loading && hold_urls is_url urls then some (map trim urls) else none)
  unfolding press view is_submit_disabled handle_submit
  press-view true urls h = refl
  press-view false urls h = elim (Bool-cases (hold_urls is_url urls)) [
    | inl e ↦
        rw
          (
            are_valid-fields_from is_url 0 (ltb 1 (length urls)) urls,
            e,
            active_urls_of_held urls e,
            length-map,
          )
          (ground arith)
    | inr e ↦ rw (are_valid-fields_from is_url 0 (ltb 1 (length urls)) urls, e) (ground arith)
  ]

-- What `onSubmit` is called with is at least one URL, each tidy, and submitting these again changes
-- nothing.
pub handle_submit_lem :
    (urls sent : List Text)
    → handle_submit urls ≡ some sent
    → (0 < length sent) × All IsTidy sent × (handle_submit sent ≡ some sent)
unfolding handle_submit
handle_submit_lem urls sent e =
    let same : active_urls urls ≡ sent = ground arith in
    let tidy : All IsTidy sent = subst (All IsTidy) same (active_urls-IsTidy urls) in
    (ground arith, tidy, ground (arith, active_urls_of_IsTidy sent tidy))

-- An empty field more changes nothing of what is submitted.
pub active_urls-add_field : (urls : List Text) → active_urls (add_field urls) ≡ active_urls urls
unfolding active_urls add_field trim
active_urls-add_field urls =
    rw (map-append, filter-append) (append-nil (filter truthy (map trim urls)))
