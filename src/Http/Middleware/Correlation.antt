-- ===== src/Http/Middleware/Correlation.antt =====
-- The request id of what the application sends.
use ketabdan_ms.Prelude.{
  ℕ, String, ◌≡◌, refl, ap, ◌∙◌, inl, inr, true, List, [], ◌∷◌, ◌++◌, map, Bool-cases, ◌==◌, nat_eq,
  string_eq, keep, All,
}
use ketabdan_ms.Http.{is_safe_id, resolve_request_id}
use ketabdan_ms.Http.RequestId.{resolve_request_id-safe}
use ketabdan_ms.Http.Middleware.{
  Message, response_start, other_message, Scope, request_id_header, with_request_id, status_after,
  forwarded,
}

-- The values that headers have for the request id
abbrev pub request_ids : List (String × String) → List String
request_ids headers =
    map (λ (name, value). value) (keep (λ (name, value). name == request_id_header) headers)

-- The application itself sets no request id.
abbrev pub Untagged : Message → Type 0
Untagged (response_start status headers) = request_ids headers ≡ []
Untagged (other_message type) = Unit

-- The start of a response has the id, and no other, in its headers.
abbrev pub Carries : String → Message → Type 0
Carries id (response_start status headers) = request_ids headers ≡ id ∷ []
Carries id (other_message type) = Unit

request_ids-append :
    (id : String) (headers : List (String × String))
    → request_ids (headers ++ ((request_id_header, id) ∷ [])) ≡ request_ids headers ++ (id ∷ [])
request_ids-append id [] = refl
request_ids-append id ((name, value) ∷ headers) = elim (Bool-cases (name == request_id_header)) [
  | inl e ↦ rw e (ap (λ x. value ∷ x) (request_ids-append id headers))
  | inr e ↦ rw e (request_ids-append id headers)
]

with_request_id-Carries :
    (id : String) (messages : List Message)
    → All Untagged messages
    → All (Carries id) (map (with_request_id id) messages)
unfolding with_request_id
with_request_id-Carries id [] v = tt
with_request_id-Carries id (response_start status headers ∷ messages) (first, v) = (
  request_ids-append id headers ∙ ap (λ x. x ++ (id ∷ [])) first,
  with_request_id-Carries id messages v,
)
with_request_id-Carries id (other_message type ∷ messages) (first, v) =
    (tt, with_request_id-Carries id messages v)

status_after-with_request_id :
    (id : String) (status : ℕ) (messages : List Message)
    → status_after status (map (with_request_id id) messages) ≡ status_after status messages
unfolding status_after with_request_id
status_after-with_request_id id status [] = refl
status_after-with_request_id id status (response_start s headers ∷ messages) =
    status_after-with_request_id id s messages
status_after-with_request_id id status (other_message type ∷ messages) =
    status_after-with_request_id id status messages

-- Of an HTTP request, each response start that the application sends through the middleware, also
-- one of several or before a body that is cut short, goes on with exactly one request id, the same for
-- all, if the application sets none itself; the id is 1 to 64 safe characters whatever the client
-- sent, and the status that is reported is that of what goes on. An answer that is made outside the
-- middleware, as the 500 after an exception, does not pass here.
pub forwarded-Carries :
    (drawn : ℕ) (scope : Scope) (messages : List Message)
    → scope.type ≡ "http"
    → All Untagged messages
    → (is_safe_id (resolve_request_id drawn scope.incoming_id) ≡ true)
      × All (Carries (resolve_request_id drawn scope.incoming_id)) (forwarded drawn scope messages)
      × (status_after 500 (forwarded drawn scope messages) ≡ status_after 500 messages)
unfolding forwarded
forwarded-Carries drawn scope messages h untagged = (
  resolve_request_id-safe drawn scope.incoming_id,
  rw h (with_request_id-Carries (resolve_request_id drawn scope.incoming_id) messages untagged),
  rw h (status_after-with_request_id (resolve_request_id drawn scope.incoming_id) 500 messages),
)
