-- ===== src/Client/Laws.antt =====
-- What `request` asks for: the address, the headers and the credentials.
use emp_apps.Base.{
  ◌≡◌, refl, ◌∙◌, ◌↔◌, inl, inr, true, List, map, Option, none, some, arith, Bool-cases, nat_eq,
  if◌then◌else◌, ok, err, ◌>>=◌,
}
use emp_apps.Base.Promise.{fulfilled_parts}
use emp_apps.Base.Text.{Text, js, starts_with}
use emp_apps.Client.Build.{Headers, Options, request_url, build_request}
use emp_apps.Client.Handle.{
  Browser, Response, Body, is_ok, read_body, error_value, message_of, handle_response, request,
}

-- Every address stands under `/api`, whatever the path.
pub request_url-starts_with : (path : Text) → starts_with (request_url path) (js "/api") ≡ true
unfolding request_url starts_with js
request_url-starts_with path = elim (Bool-cases (starts_with path (js "/api"))) [
  | inl e ↦ rw e e
  | inr e ↦ rw e refl
]

abbrev pub keys : Headers → List Text
keys = map (λ h. h.0)

-- `a`, or `b` where there is none.
abbrev pub or_option {ℓ} : {A : Type ℓ} → Option A → Option A → Option A
or_option none b = b
or_option (some a) b = some a

-- `request` is fulfilled exactly when the network answers with a 2xx status and the body can be read.
pub request-eq-ok_iff :
    (b : Browser) (path : Text) (o : Options) (body : Body)
    → (request b path o ≡ ok body) ↔ (
        (r : Response) × (b.fetch (build_request path o) ≡ ok r)
        × (is_ok r ≡ true)
        × (read_body b r ≡ ok body))
unfolding request handle_response
request-eq-ok_iff b path o body = (fulfilled, λ (r, f, k, t). rw (f, t, k))
  where
    answered :
        (r : Response) (x : Body)
        → (if is_ok r then ok x else (do m ← error_value b x; err (message_of b m))) ≡ ok body
        → (is_ok r ≡ true) × (x ≡ body)
    answered r x e = ground arith

    fulfilled :
        request b path o ≡ ok body
        → (r : Response) × (b.fetch (build_request path o) ≡ ok r)
          × (is_ok r ≡ true)
          × (read_body b r ≡ ok body)
    fulfilled e =
        let (r, f, h) = fulfilled_parts (b.fetch (build_request path o)) (handle_response b) e in
        let (x, t, k) = fulfilled_parts (read_body b r) _ h in
        let (p, q) = answered r x k in (r, f, p, t ∙ ground arith)
