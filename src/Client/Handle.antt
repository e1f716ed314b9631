-- ===== src/Client/Handle.antt =====
-- The second half of `request`: reading the body, and the error that is thrown unless `response.ok`.
use emp_apps.Base.{
  List, none, some, ℕ, Bool, false, ◌&&◌, Option, none, some, leb, if◌then◌else◌, Result, ok, err,
  ◌>>=◌,
}
use emp_apps.Base.Text.{Text, js, truthy, includes, join}
use emp_apps.Client.Json.{Json, str, arr, is_truthy, is_object, to_text, texts, get}
use emp_apps.Client.Build.{Options, HttpRequest, build_request}

pub record Response : Type 0 where
  pub status : ℕ
  pub content_type : Option Text
  pub raw : Text

-- `response.ok`
unfoldable pub is_ok : Response → Bool
is_ok r = leb 200 r.status && leb r.status 299

-- What the browser does for `request`: the network, the JSON parser and printer, and the messages
-- of the errors that are thrown where a property that is called is no function, and where an object has no
-- text.
pub record Browser : Type 0 where
  pub fetch : HttpRequest → Result Response
  pub parse : Text → Result Json
  pub stringify : Json → Text
  pub not_a_function : Text
  pub not_a_primitive : Text

pub data Body : Type 0 where
  json : Json → Body
  text : Text → Body

-- `contentType && contentType.includes('application/json')`
unfoldable pub is_json : Option Text → Bool
is_json none = false
is_json (some t) = truthy t && includes t (js "application/json")

module _ (b : Browser) where
  unfoldable pub read_body : Response → Result Body
  unfolding is_json
  read_body r =
      if is_json r.content_type then (do v ← b.parse r.raw; ok (json v)) else ok (text r.raw)

  abbrev pub joined_array : Option (List Text) → Result (Option Json)
  joined_array none = err b.not_a_primitive
  joined_array (some ts) = ok (some (str (join (js ", ") ts)))

  -- `body.errors && body.errors.join(', ')`
  unfoldable pub joined : Option Json → Result (Option Json)
  joined none = ok none
  joined (some (arr vs)) = joined_array (texts vs)
  joined (some v) = if is_truthy v then err b.not_a_function else ok (some v)

  -- `a || k`, where `a` may be `undefined`
  abbrev pub or_value : Option Json → Result (Option Json) → Result (Option Json)
  or_value none k = k
  or_value (some v) k = if is_truthy v then ok (some v) else k

  -- `errorMsg`
  unfoldable pub error_value : Body → Result (Option Json)
  unfolding joined
  error_value (text s) = ok (some (str s))
  error_value (json v) =
      if is_object v
      then or_value (get v (js "error"))
          (or_value (get v (js "message")) (joined (get v (js "errors"))))
      else ok (some v)

  abbrev pub error_text : Option Text → Text
  error_text none = b.not_a_primitive
  error_text (some t) = t

  -- The message of `new Error(errorMsg || 'Request failed')`, or of the error that making its text throws.
  unfoldable pub message_of : Option Json → Text
  message_of none = js "Request failed"
  message_of (some v) = if is_truthy v then error_text (to_text v) else js "Request failed"

  unfoldable pub handle_response : Response → Result Body
  unfolding read_body error_value message_of
  handle_response r = do
    body ← read_body r
    if is_ok r then ok body else (do m ← error_value body; err (message_of m))

  unfoldable pub request : Text → Options → Result Body
  unfolding build_request handle_response
  request path options = do r ← b.fetch (build_request path options); handle_response r
