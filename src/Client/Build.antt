-- ===== src/Client/Build.antt =====
-- The first half of `request`: the address and the options that are given to `fetch`.
use emp_apps.Base.{List, [], ◌∷◌, ◌++◌, ◌==◌, list_eq, nat_eq, Option, none, some, if◌then◌else◌}
use emp_apps.Base.Text.{Text, js, starts_with}

abbrev pub Headers : Type 0
Headers = List (Text × Text)

-- The parameter `options`: what a caller may set.
pub record Options : Type 0 where
  pub method : Option Text
  pub body : Option Text
  pub headers : Headers
  pub credentials : Option Text

-- What `fetch` is called with.
pub record HttpRequest : Type 0 where
  pub url : Text
  pub method : Option Text
  pub body : Option Text
  pub headers : Headers
  pub credentials : Text

-- `defaultHeaders`
unfoldable pub default_headers : Headers
default_headers =
    (js "Content-Type", js "application/json") ∷ (js "Accept", js "application/json") ∷ []

unfoldable pub lookup : Text → Headers → Option Text
lookup k [] = none
lookup k ((j, v) ∷ hs) = if j == k then some v else lookup k hs

-- An assignment to a property: in its place if it is there, behind the others if not.
unfoldable pub assign : Text → Text → Headers → Headers
assign k v [] = (k, v) ∷ []
assign k v ((j, w) ∷ hs) = if j == k then (k, v) ∷ hs else (j, w) ∷ assign k v hs

-- `{ ...base, ...over }`
unfoldable pub spread : Headers → Headers → Headers
unfolding assign
spread base [] = base
spread base ((k, v) ∷ over) = spread (assign k v base) over

-- `path.startsWith('/api') ? path : `/api/v1${path}``
unfoldable pub request_url : Text → Text
request_url path = if starts_with path (js "/api") then path else js "/api/v1" ++ path

unfoldable pub build_request : Text → Options → HttpRequest
unfolding request_url
build_request path options = record {
  url = request_url path;
  method = options.method;
  body = options.body;
  headers = spread default_headers options.headers;
  credentials = js "include";
}
