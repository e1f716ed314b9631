-- ===== src/Client/Json.antt =====
-- The values that `response.json()` gives, with the conversions that client.js applies to them.
-- A number is carried by the text that `String` gives it. `undefined` is the `none` of an `Option`.
use emp_apps.Base.{
  Bool, true, false, not, List, [], ◌∷◌, Option, none, some, ◌==◌, list_eq, nat_eq, if◌then◌else◌,
}
use emp_apps.Base.Text.{Text, js, truthy, join}

mutual
  pub data Json : Type 0 where
    null : Json
    obj : Props → Json
    arr : Elems → Json
    str num : Text → Json
    bool : Bool → Json

  pub data Props : Type 0 where
    prop : (name : Text) → Json → Props → Props
    end : Props

  pub data Elems : Type 0 where
    cons : Json → Elems → Elems
    nil : Elems

-- Whether `if (v)` takes `v` for true; of the numbers of JSON only 0 is not.
unfoldable pub is_truthy : Json → Bool
unfolding js
is_truthy null = false
is_truthy (bool b) = b
is_truthy (num t) = not (t == js "0")
is_truthy (str s) = truthy s
is_truthy (arr vs) = true
is_truthy (obj ps) = true

-- `v && typeof v === 'object'`
abbrev pub is_object : Json → Bool
is_object (arr vs) = true
is_object (obj ps) = true
is_object _ = false

abbrev is_null : Json → Bool
is_null null = true
is_null _ = false

-- An object's own property. The names `error`, `message` and `errors`, which `request` reads, are those of
-- no prototype.
unfoldable pub lookup : Text → Props → Option Json
lookup k end = none
lookup k (prop j v ps) = if j == k then some v else lookup k ps

-- The texts joined, if there are all.
abbrev pub joined_texts : Text → Option (List Text) → Option Text
joined_texts sep none = none
joined_texts sep (some ts) = some (join sep ts)

abbrev pub more_texts : Option Text → Option (List Text) → Option (List Text)
more_texts (some t) (some ts) = some (t ∷ ts)
more_texts _ _ = none

-- The text of an object, by its own `toString`.
abbrev pub object_text : Option Json → Option Text
object_text none = some (js "[object Object]")
object_text (some v) = none

-- `String(v)`, and the texts that `join` puts together, where `null` is the empty one. An object that has
-- a `toString` of its own has no text: that property is no function, and a TypeError is thrown.
unfoldable mutual
  pub to_text : Json → Option Text
  to_text null = some (js "null")
  to_text (bool b) = some (if b then js "true" else js "false")
  to_text (num t) = some t
  to_text (str s) = some s
  to_text (arr vs) = joined_texts (js ",") (texts vs)
  to_text (obj ps) = object_text (lookup (js "toString") ps)

  pub texts : Elems → Option (List Text)
  texts nil = some []
  texts (cons v vs) = more_texts (if is_null v then some [] else to_text v) (texts vs)

unfoldable pub get : Json → Text → Option Json
unfolding lookup
get (obj ps) k = lookup k ps
get _ k = none
