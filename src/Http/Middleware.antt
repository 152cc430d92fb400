-- ===== src/Http/Middleware.antt =====
-- `RequestLoggingMiddleware.__call__` of apps/api/app/api/middleware.py: what happens before the
-- application is awaited, the messages that it sends, and the `finally` block. Requests overlap: the
-- event loop runs others while one awaits. Log lines and the clock are left out.
pub mod Correlation
use ketabdan_ms.Prelude.{
  ℕ, ◌+◌, String, ◌≡◌, refl, ap, ◌∙◌, inl, inr, true, ◌&&◌, Option, List, [], ◌∷◌, ◌++◌, map, arith,
  if◌then◌else◌, Bool-cases, ◌==◌, nat_eq, string_eq, keep, All, elem,
}
use ketabdan_ms.Metrics.{
  Registry, empty_registry, unmetered_paths, observe_http_request, observe_http_request_start,
  observe_http_request_end,
}
use ketabdan_ms.Http.{is_safe_id, resolve_request_id}
use ketabdan_ms.Http.RequestId.{resolve_request_id-safe}

-- An ASGI message: the start of a response with its headers, or any other
pub data Message : Type 0 where
  response_start : (status : ℕ) (headers : List (String × String)) → Message
  other_message : (type : String) → Message

pub record Scope : Type 0 where
  pub type : String
  pub method : String
  pub path : String
  pub route_template : Option (Option String)
  pub incoming_id : Option String

-- `REQUEST_ID_HEADER`, in lower case, as `MutableHeaders.append` writes a name
abbrev pub request_id_header : String
request_id_header = "x-request-id"

-- `send_with_request_id`, for the message that goes on
unfoldable pub with_request_id : String → Message → Message
with_request_id id (response_start status headers) =
    response_start status (headers ++ ((request_id_header, id) ∷ []))
with_request_id id (other_message type) = other_message type

-- `status_code` after the messages: 500 until a response starts
unfoldable pub status_after : ℕ → List Message → ℕ
status_after status [] = status
status_after status (response_start s headers ∷ messages) = status_after s messages
status_after status (other_message type ∷ messages) = status_after status messages

unfoldable pub begin_request : Scope → Registry → Registry
begin_request scope r =
    if scope.type == "http" then observe_http_request_start scope.method r else r

-- The `finally` block, after the messages that the application sent, whether it returned or raised
unfoldable pub finish_request : Scope → List Message → ℕ → Registry → Registry
unfolding status_after
finish_request scope messages duration r =
    if scope.type == "http"
    then observe_http_request scope.method scope.path scope.route_template
        (status_after 500 messages) duration (observe_http_request_end scope.method r)
    else r

unfoldable pub forwarded : ℕ → Scope → List Message → List Message
unfolding with_request_id
forwarded drawn scope messages =
    if scope.type == "http"
    then map (with_request_id (resolve_request_id drawn scope.incoming_id)) messages
    else messages

-- The requests that are open, the latest first, and the registry, after any interleaving of
-- beginnings and ends
pub data Serving : Registry → List Scope → Type 0 where
  idle : Serving empty_registry []
  begun :
      {earlier : Registry} {others : List Scope} (scope : Scope) (r' : Registry)
      → Serving earlier others
      → r' ≡ begin_request scope earlier
      → Serving r' (scope ∷ others)
  finished :
      {earlier : Registry} {others : List Scope} (before after : List Scope) (scope : Scope)
      (messages : List Message) (duration : ℕ) (r' : Registry) (active' : List Scope)
      → Serving earlier others
      → others ≡ before ++ (scope ∷ after)
      → r' ≡ finish_request scope messages duration earlier
      → active' ≡ before ++ after
      → Serving r' active'

abbrev pub occurrences : String → List String → ℕ
occurrences m [] = 0
occurrences m (x ∷ xs) = (if x == m then 1 else 0) + occurrences m xs

-- One for an open HTTP request of the method
abbrev pub weight : String → Scope → ℕ
weight m scope = if (scope.type == "http") && (scope.method == m) then 1 else 0

abbrev pub open_requests : String → List Scope → ℕ
open_requests m [] = 0
open_requests m (scope ∷ scopes) = weight m scope + open_requests m scopes

open_requests-append :
    (m : String) (xs ys : List Scope)
    → open_requests m (xs ++ ys) ≡ open_requests m xs + open_requests m ys
open_requests-append m [] ys = omega arith
open_requests-append m (x ∷ xs) ys = let ih = open_requests-append m xs ys in omega (arith, ih)

begin-inc :
    (m : String) (scope : Scope) (r : Registry)
    → (occurrences m (begin_request scope r).in_progress_inc
        ≡ weight m scope + occurrences m r.in_progress_inc)
      × ((begin_request scope r).in_progress_dec ≡ r.in_progress_dec)
unfolding begin_request observe_http_request_start
begin-inc m scope r = elim (Bool-cases (scope.type == "http")) [
  | inl e ↦ rw e (refl, refl)
  | inr e ↦ rw e (omega arith, refl)
]

observe-progress :
    (method path : String) (template : Option (Option String)) (status duration : ℕ) (r : Registry)
    → ((observe_http_request method path template status duration r).in_progress_inc
        ≡ r.in_progress_inc)
      × ((observe_http_request method path template status duration r).in_progress_dec
          ≡ r.in_progress_dec)
unfolding observe_http_request
observe-progress method path template status duration r =
    elim (Bool-cases (elem path unmetered_paths)) [
      | inl e ↦ rw e (refl, refl)
      | inr e ↦ rw e (refl, refl)
    ]

finish-dec :
    (m : String) (scope : Scope) (messages : List Message) (duration : ℕ) (r : Registry)
    → ((finish_request scope messages duration r).in_progress_inc ≡ r.in_progress_inc)
      × (occurrences m (finish_request scope messages duration r).in_progress_dec
          ≡ weight m scope + occurrences m r.in_progress_dec)
unfolding finish_request observe_http_request_end
finish-dec m scope messages duration r = elim (Bool-cases (scope.type == "http")) [
  | inl e ↦
      (let (inc, dec) =
          observe-progress scope.method scope.path scope.route_template (status_after 500 messages)
            duration (observe_http_request_end scope.method r) in
        rw e (inc, ap (occurrences m) dec))
  | inr e ↦ rw e (refl, omega arith)
]

-- However requests overlap and end, the gauge of each method, its increments less its decrements,
-- is the number of HTTP requests of the method that are open.
pub in_progress-open_requests :
    (m : String) (r : Registry) (active : List Scope)
    → Serving r active
    → occurrences m r.in_progress_inc ≡ open_requests m active + occurrences m r.in_progress_dec
in_progress-open_requests m r active idle = omega arith
in_progress-open_requests m r active (begun {earlier} {others} scope r' s e) =
    let ih = in_progress-open_requests m earlier others s in
    let (inc, dec) = begin-inc m scope earlier in
    let inc' = ap (λ (x : Registry). occurrences m x.in_progress_inc) e in
    let dec' = ap (λ (x : Registry). occurrences m x.in_progress_dec) e ∙ ap (occurrences m) dec in
    omega (arith, ih, inc, inc', dec')
in_progress-open_requests m r active
      (finished {earlier} {others} before after scope messages duration r' active' s opened e
        left) =
    let ih = in_progress-open_requests m earlier others s in
    let (inc, dec) = finish-dec m scope messages duration earlier in
    let inc' = ap (λ (x : Registry). occurrences m x.in_progress_inc) e ∙ ap (occurrences m) inc in
    let dec' = ap (λ (x : Registry). occurrences m x.in_progress_dec) e in
    let was = ap (open_requests m) opened ∙ open_requests-append m before (scope ∷ after) in
    let now = ap (open_requests m) left ∙ open_requests-append m before after in
    omega (arith, ih, inc', dec, dec', was, now)
