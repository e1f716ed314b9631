-- ===== src/Dashboard/Errors.antt =====
-- The banner of a message with errors. The service sends each as an object `{ url, error }`
-- (`jobstore.URLErr` of the back end), and a request that fails in the job has the texts of exceptions.
use emp_apps.Base.{
  ℕ, zero, suc, sym, All, ◌≡◌, refl, ap, ◌∙◌, List, [], ◌∷◌, ◌++◌, none, some, length,
}
use emp_apps.Base.Text.{Text, js, join}
use emp_apps.Client.Json.{obj, Props, Elems, nil, cons, texts, to_text, lookup}
use emp_apps.Client.Api.{elems}
use emp_apps.Client.Messages.{texts-elems}
use emp_apps.Feeds.{Broadcast}
use emp_apps.Dashboard.{Page, report, handle_broadcast}
use emp_apps.Dashboard.Handlers.{handle_broadcast-report}

-- An array of objects.
abbrev pub objects : List Props → Elems
objects [] = nil
objects (o ∷ os) = cons (obj o) (objects os)

-- An object without a `toString` of its own.
abbrev pub IsPlain : Props → Type 0
IsPlain o = lookup (js "toString") o ≡ none

copies : ℕ → Text → List Text
copies zero t = []
copies (suc n) t = t ∷ copies n t

texts-objects :
    (os : List Props)
    → All IsPlain os
    → texts (objects os) ≡ some (copies (length os) (js "[object Object]"))
unfolding texts to_text copies
texts-objects [] h = refl
texts-objects (o ∷ os) (h, hs) = rw (h, texts-objects os hs) refl

abbrev hidden : ℕ → Text → Text
hidden zero error = error
hidden (suc n) error =
    js "Some feeds failed to parse: " ++ join (js ", ") (copies (suc n) (js "[object Object]"))

report-objects :
    (os : List Props) (p : Page)
    → All IsPlain os
    → (report (some (objects os)) p).error ≡ hidden (length os) p.error
unfolding report copies
report-objects [] p h = refl
report-objects (o ∷ os) p h = rw (texts-objects (o ∷ os) h) refl

abbrev pub with_errors : Elems → Broadcast → Broadcast
with_errors es d = record d { errors = some es }

-- Two messages that differ in their errors alone, which are equally many objects, none with a property
-- `toString`, leave the same banner, whatever else the objects hold.
pub objects_hide_errors :
    (d : Broadcast) (p : Page) (os os' : List Props)
    → length os ≡ length os'
    → All IsPlain os
    → All IsPlain os'
    → (handle_broadcast (with_errors (objects os) d) p).error
      ≡ (handle_broadcast (with_errors (objects os') d) p).error
objects_hide_errors d p os os' h k k' =
    handle_broadcast-report (with_errors (objects os) d) p
    ∙ report-objects os p k
    ∙ ap (λ n. hidden n p.error) h
    ∙ sym (report-objects os' p k')
    ∙ sym (handle_broadcast-report (with_errors (objects os') d) p)

-- A message whose errors are texts, at least one, puts them all in the banner, joined by commas;
-- without errors, or with an empty array of them, the banner stays as it is.
pub handle_broadcast-error :
    (d : Broadcast) (p : Page) (m : Text) (ms : List Text)
    → ((handle_broadcast (with_errors (elems (m ∷ ms)) d) p).error
        ≡ js "Some feeds failed to parse: " ++ join (js ", ") (m ∷ ms))
      × ((handle_broadcast (with_errors nil d) p).error ≡ p.error)
      × ((handle_broadcast (record d { errors = none }) p).error ≡ p.error)
unfolding report elems
handle_broadcast-error d p m ms = (
  handle_broadcast-report (with_errors (elems (m ∷ ms)) d) p ∙ report_elems,
  handle_broadcast-report (with_errors nil d) p,
  handle_broadcast-report (record d { errors = none }) p,
)
  where
    report_elems :
        (report (some (elems (m ∷ ms))) p).error
        ≡ js "Some feeds failed to parse: " ++ join (js ", ") (m ∷ ms)
    report_elems = rw (texts-elems (m ∷ ms)) refl
