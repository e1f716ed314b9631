-- ===== src/Client/Messages.antt =====
-- The messages of the errors that `request` throws.
use emp_apps.Base.{
  Option-cases, inl, inr, ◌≡◌, refl, ◌∙◌, true, false, List, [], ◌∷◌, Option, none, some, arith,
  if◌then◌else◌, Result, ok, err, ◌>>=◌,
}
use emp_apps.Base.Text.{or_else, Text, js, truthy, join}
use emp_apps.Client.Json.{
  Json, null, bool, num, str, arr, obj, Props, is_truthy, to_text, texts, lookup, get,
}
use emp_apps.Client.Api.{elems}
use emp_apps.Client.Handle.{
  Browser, Response, Body, json, is_ok, read_body, joined, error_value, message_of, handle_response,
}

abbrev reject : Text → Result Body
reject m = err m

pub texts-elems : (ms : List Text) → texts (elems ms) ≡ some ms
unfolding texts to_text elems
texts-elems [] = refl
texts-elems (m ∷ ms) = rw (texts-elems ms) refl

module _ (b : Browser) (r : Response) (failed : is_ok r ≡ false) where
  -- Once the body is read and the error's value is known, so is the message.
  handle_response-eq-err :
      (body : Body) (v : Option Json)
      → read_body b r ≡ ok body
      → error_value b body ≡ ok v
      → handle_response b r ≡ err (message_of b v)
  unfolding handle_response
  handle_response-eq-err body v e f = rw (e, failed, f)

  -- A failed response rejects, whatever its body.
  pub handle_response_of_failed : (m : Text) × (handle_response b r ≡ err m)
  unfolding handle_response
  handle_response_of_failed = of_read (read_body b r)
    where
      of_value :
          (v : Result (Option Json)) → (m : Text) × ((v >>= λ w. reject (message_of b w)) ≡ err m)
      of_value (ok v) = (message_of b v, refl)
      of_value (err m) = (m, refl)

      of_read :
          (x : Result Body)
          → (m : Text) × ((x >>= λ body.
                if is_ok r then ok body else (error_value b body >>= λ w. reject (message_of b w)))
              ≡ err m)
      of_read (err m) = (m, refl)
      of_read (ok body) = rw failed (of_value (error_value b body))

  -- An `error` that is a text and not empty is the message, whatever else the body holds.
  pub handle_response_error :
      (ps : Props) (m : Text)
      → read_body b r ≡ ok (json (obj ps))
      → truthy m ≡ true
      → lookup (js "error") ps ≡ some (str m)
      → handle_response b r ≡ err m
  unfolding error_value message_of is_truthy to_text get
  handle_response_error ps m read t e =
      handle_response-eq-err (json (obj ps)) (some (str m)) read (rw (e, t)) ∙ rw t

  -- For a response that fails with an object without `error` and `message`: an array `errors` of texts,
  -- joined by commas, is the message, or "Request failed" where that is empty.
  pub handle_response_errors :
      (ps : Props) (ms : List Text)
      → read_body b r ≡ ok (json (obj ps))
      → lookup (js "error") ps ≡ none
      → lookup (js "message") ps ≡ none
      → lookup (js "errors") ps ≡ some (arr (elems ms))
      → handle_response b r ≡ err (or_else (join (js ", ") ms) (js "Request failed"))
  unfolding error_value message_of is_truthy to_text get joined
  handle_response_errors ps ms read e f g =
      handle_response-eq-err (json (obj ps)) (some (str (join (js ", ") ms))) read
        (rw (e, f, g, texts-elems ms))

  -- Of the values that may become a message, an array is the one whose text may be empty.
  abbrev pub HasText : Option Json → Type 0
  HasText (some (arr vs)) = ⊥
  HasText (some (num t)) = truthy t ≡ true
  HasText _ = Unit

  message_of-truthy :
      (v : Option Json)
      → truthy b.not_a_primitive ≡ true
      → HasText v
      → truthy (message_of b v) ≡ true
  unfolding message_of is_truthy to_text js
  message_of-truthy none k h = refl
  message_of-truthy (some null) k h = refl
  message_of-truthy (some (bool true)) k h = refl
  message_of-truthy (some (bool false)) k h = refl
  message_of-truthy (some (num t)) k h = ground arith
  message_of-truthy (some (str [])) k h = refl
  message_of-truthy (some (str (c ∷ s))) k h = refl
  message_of-truthy (some (arr vs)) k h = absurd h
  message_of-truthy (some (obj ps)) k h = elim (Option-cases (lookup (js "toString") ps)) [
    | inl e ↦ rw e refl
    | inr (v, e) ↦ rw e k
  ]

  -- A response that fails, whose body can be read and yields a value for the message, rejects with a
  -- message that is not empty, unless that value is an array, or a number that prints as nothing, if the
  -- engine's own message for an object without a text is not empty.
  pub failed_message-truthy :
      (body : Body) (v : Option Json)
      → read_body b r ≡ ok body
      → error_value b body ≡ ok v
      → truthy b.not_a_primitive ≡ true
      → HasText v
      → (m : Text) × (handle_response b r ≡ err m) × (truthy m ≡ true)
  failed_message-truthy body v e f k h =
      (message_of b v, handle_response-eq-err body v e f, message_of-truthy v k h)
