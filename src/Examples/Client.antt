-- ===== src/Examples/Client.antt =====
-- The client of the API.
use emp_apps.Base.{list_eq, nat_eq, ◌≡◌, refl, ◌↔◌, true, false, [], ◌∷◌, none, some, ok, err}
use emp_apps.Base.Text.{or_else, Text, js, truthy, join, starts_with, includes}
use emp_apps.Client.Json.{str, arr, obj, Props, end, prop, lookup, is_truthy, get, to_text}
use emp_apps.Client.Api.{elems}
use emp_apps.Client.Build
use emp_apps.Client.Build.{Headers, Options, default_headers, spread, request_url, build_request}
use emp_apps.Client.Handle.{
  Browser, Response, json, text, is_ok, read_body, error_value, handle_response, request,
}
use emp_apps.Client.Laws.{request-eq-ok_iff, request_url-starts_with}
use emp_apps.Client.Messages.{handle_response_errors, failed_message-truthy}
use emp_apps.Examples.Data.{refusal, refused, browser}

abbrev with_token : Headers
with_token = (js "Accept", js "text/plain") ∷ (js "X-Token", js "t") ∷ []

url_of_path : request_url (js "/feeds") ≡ js "/api/v1/feeds"
unfolding request_url starts_with js
url_of_path = refl

starts_with_api : starts_with (request_url (js "/feeds")) (js "/api") ≡ true
starts_with_api = request_url-starts_with (js "/feeds")

abbrev posting : Options
posting = record {
  method = some (js "POST");
  body = none;
  headers = with_token;
  credentials = none;
}

abbrev plain_get : Options
plain_get = record { method = some (js "GET"); body = none; headers = []; credentials = none }

request-eq-ok_iff_example : (request browser (js "/health") plain_get ≡ ok (text (js "ok"))) ↔ (
    (r : Response) × (browser.fetch (build_request (js "/health") plain_get) ≡ ok r)
    × (is_ok r ≡ true)
    × (read_body browser r ≡ ok (text (js "ok"))))
request-eq-ok_iff_example = request-eq-ok_iff browser (js "/health") plain_get (text (js "ok"))

refused_body : read_body browser refused ≡ ok (json (obj refusal))
unfolding read_body js includes starts_with
refused_body = refl

refused_status : is_ok refused ≡ false
unfolding is_ok
refused_status = refl

abbrev invalid : Props
invalid = prop (js "errors") (arr (elems (js "Urls can't be blank" ∷ js "Status" ∷ []))) end

abbrev strict : Browser
strict = record browser { parse = λ s. ok (obj invalid) }

invalid_body : read_body strict refused ≡ ok (json (obj invalid))
unfolding read_body js includes starts_with
invalid_body = refl

handle_response_errors_example :
    handle_response strict refused
    ≡ err (
        or_else
          (join (js ", ") (js "Urls can't be blank" ∷ js "Status" ∷ []))
          (js "Request failed"))
unfolding js lookup join elems
handle_response_errors_example =
    handle_response_errors strict refused refused_status invalid
      (js "Urls can't be blank" ∷ js "Status" ∷ []) invalid_body refl refl refl

refusal_value :
    error_value browser (json (obj refusal)) ≡ ok (some (str (js "Invalid email or password")))
unfolding error_value js is_truthy get lookup
refusal_value = refl

failed_message-truthy_example :
    (m : Text) × (handle_response browser refused ≡ err m) × (truthy m ≡ true)
unfolding js
failed_message-truthy_example =
    failed_message-truthy browser refused refused_status (json (obj refusal))
      (some (str (js "Invalid email or password"))) refused_body refusal_value refl tt

-- An empty array as `error` makes an error with an empty message.
abbrev empty_error : Browser
empty_error = record browser { parse = λ s. ok (obj (prop (js "error") (arr (elems [])) end)) }

empty_message : handle_response empty_error refused ≡ err []
unfolding handle_response js includes starts_with is_truthy get lookup elems to_text join is_ok
empty_message = refl
