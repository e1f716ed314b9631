-- ===== src/Client/Api.antt =====
-- The object `api` of client.js: one call for each endpoint.
use emp_apps.Base.{List, [], ◌∷◌, Option, none, some, Result}
use emp_apps.Base.Text.{Text, js}
use emp_apps.Client.Json.{Json, str, arr, obj, Elems, nil, cons, end, prop}
use emp_apps.Client.Build.{Options}
use emp_apps.Client.Handle.{Browser, Body, request}

abbrev options : Text → Option Text → Options
options m b = record { method = some m; body = b; headers = []; credentials = none }

-- An array of strings as a value.
unfoldable pub elems : List Text → Elems
elems [] = nil
elems (s ∷ ss) = cons (str s) (elems ss)

-- `{ user: { email, password } }`
unfoldable pub credentials_value : Text → Text → Json
credentials_value email password = obj (
    prop (js "user") (obj (prop (js "email") (str email) (prop (js "password") (str password) end)))
      end)

-- `{ urls }`
unfoldable pub urls_value : List Text → Json
unfolding elems
urls_value urls = obj (prop (js "urls") (arr (elems urls)) end)

module _ (b : Browser) where
  unfoldable pub login : Text → Text → Result Body
  unfolding request credentials_value
  login email password =
      request b (js "/users/sign_in")
        (options (js "POST") (some (b.stringify (credentials_value email password))))

  unfoldable pub logout : Result Body
  unfolding request
  logout = request b (js "/users/sign_out") (options (js "DELETE") none)

  unfoldable pub submit_feeds : List Text → Result Body
  unfolding request urls_value
  submit_feeds urls =
      request b (js "/feeds") (options (js "POST") (some (b.stringify (urls_value urls))))

  unfoldable pub get_feed_items : Result Body
  unfolding request
  get_feed_items = request b (js "/feed_items") (options (js "GET") none)

  unfoldable pub get_health : Result Body
  unfolding request
  get_health = request b (js "/health") (options (js "GET") none)
