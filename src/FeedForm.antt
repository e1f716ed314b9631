-- ===== src/FeedForm.antt =====
-- `FeedForm` of app/frontend/components/feeds/FeedForm.jsx: the array of URL fields, its handlers, and
-- what the form shows of it. A handler reads the array of the render that made it, as here; the index
-- that it is given is that of a rendered field, so a write past the end does not arise.
pub mod Fields
pub mod Submit
use emp_apps.Base.{
  ◌&&◌, ◌==◌, list_eq, nat_eq, ℕ, zero, suc, ◌+◌, ◌<◌, ◌≡◌, Bool, true, false, not, ◌||◌, List, [],
  ◌∷◌, ◌++◌, map, Option, none, some, ltb, nat_beq, if◌then◌else◌, length, set, filter, filter_idx,
}
use emp_apps.Base.Text.{Text, js, truthy, trim}

-- `useState([''])`
abbrev pub initial : List Text
initial = [] ∷ []

unfoldable pub handle_url_change : ℕ → Text → List Text → List Text
handle_url_change index value urls = set urls index value

unfoldable pub add_field : List Text → List Text
add_field urls = urls ++ [] ∷ []

unfoldable pub remove_field : ℕ → List Text → List Text
remove_field index urls =
    if ltb 1 (length urls) then filter_idx (λ i. not (nat_beq i index)) 0 urls else urls

-- `urls.map(u => u.trim()).filter(Boolean)`
unfoldable pub active_urls : List Text → List Text
active_urls urls = filter truthy (map trim urls)

-- The argument with which `onSubmit` is called, if it is.
unfoldable pub handle_submit : List Text → Option (List Text)
unfolding active_urls
handle_submit urls = if ltb 0 (length (active_urls urls)) then some (active_urls urls) else none

unfoldable pub is_submit_disabled : Bool → List Text → Bool
unfolding active_urls
is_submit_disabled loading urls = loading || nat_beq (length (active_urls urls)) 0

-- A row of the form: its number on the label, its input's value, type and `required`, and whether it has
-- a button "Remove".
pub record Field : Type 0 where
  pub number : ℕ
  pub value : Text
  pub input_type : Text
  pub required : Bool
  pub removable : Bool

pub record FormView : Type 0 where
  pub fields : List Field
  pub add_disabled : Bool
  pub submit_disabled : Bool
  pub spinner : Bool

unfoldable pub fields_from : ℕ → Bool → List Text → List Field
fields_from index removable [] = []
fields_from index removable (url ∷ urls) =
    record {
      number = index + 1;
      value = url;
      input_type = js "url";
      required = true;
      removable = removable;
    }
    ∷ fields_from (suc index) removable urls

unfoldable pub view : Bool → List Text → FormView
unfolding fields_from is_submit_disabled
view loading urls = record {
  fields = fields_from 0 (ltb 1 (length urls)) urls;
  add_disabled = loading;
  submit_disabled = is_submit_disabled loading urls;
  spinner = loading;
}

-- The browser's check of an input before it submits the form; `is_url` is what it takes for a URL in an
-- input of the type "url".
unfoldable pub is_valid : (Text → Bool) → Field → Bool
is_valid is_url f =
    (not f.required || truthy f.value)
    && (not (f.input_type == js "url") || not (truthy f.value) || is_url f.value)

abbrev pub are_valid : (Text → Bool) → List Field → Bool
are_valid is_url [] = true
are_valid is_url (f ∷ fs) = is_valid is_url f && are_valid is_url fs

-- The user presses the button: a browser sends the form's event to `handleSubmit` if the button is enabled
-- and every input passes the check.
unfoldable pub press : (Text → Bool) → Bool → List Text → Option (List Text)
unfolding view is_valid handle_submit
press is_url loading urls =
    if not (view loading urls).submit_disabled && are_valid is_url (view loading urls).fields
    then handle_submit urls
    else none

-- What the user can do to the fields.
pub data Edit : Type 0 where
  change : ℕ → Text → Edit
  add : Edit
  remove : ℕ → Edit

unfoldable pub edit : List Text → Edit → List Text
unfolding handle_url_change add_field remove_field
edit urls (change index value) = handle_url_change index value urls
edit urls add = add_field urls
edit urls (remove index) = remove_field index urls

unfoldable pub run : List Text → List Edit → List Text
unfolding edit
run urls [] = urls
run urls (e ∷ es) = run (edit urls e) es
