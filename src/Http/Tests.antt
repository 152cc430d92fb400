-- ===== src/Http/Tests.antt =====
-- Correlation ids and overlapping requests on concrete values.
use ketabdan_ms.Prelude.{◌+◌, ◌≡◌, refl, true, some, List, [], ◌∷◌, All, nat_eq, string_eq}
use ketabdan_ms.Metrics.{empty_registry}
use ketabdan_ms.Http.{is_safe_id, resolve_request_id}
use ketabdan_ms.Http.RequestId.{resolve_request_id-propagates}
use ketabdan_ms.Http.Middleware.Correlation.{Carries, Untagged, forwarded-Carries}
use ketabdan_ms.Http.Middleware.{
  Message, response_start, other_message, Scope, begin_request, finish_request, forwarded, Serving,
  idle, begun, finished, occurrences, open_requests, in_progress-open_requests, status_after,
}

abbrev reading : Scope
reading = record {
  type = "http";
  method = "GET";
  path = "/api/events";
  route_template = some (some "/api/events");
  incoming_id = some " req-1 ";
}

abbrev writing : Scope
writing = record reading { method = "POST" }

abbrev answer : List Message
answer = response_start 200 [] ∷ other_message "http.response.body" ∷ []

-- Two requests overlap, and the first one ends.
overlap :
    Serving
      (finish_request reading answer 3
        (begin_request writing (begin_request reading empty_registry)))
      (writing ∷ [])
overlap =
    finished (writing ∷ []) [] reading answer 3 _ (writing ∷ [])
      (begun writing _ (begun reading _ idle refl) refl) refl refl refl

in_progress-open_requests_example :
    occurrences "POST"
      (finish_request reading answer 3
        (begin_request writing (begin_request reading empty_registry))).in_progress_inc
    ≡ open_requests "POST" (writing ∷ [])
      + occurrences "POST"
          (finish_request reading answer 3
            (begin_request writing (begin_request reading empty_registry))).in_progress_dec
in_progress-open_requests_example =
    in_progress-open_requests "POST"
      (finish_request reading answer 3
        (begin_request writing (begin_request reading empty_registry)))
      (writing ∷ []) overlap

untagged : All Untagged answer
untagged = (refl, (tt, tt))

forwarded-Carries_example :
    (is_safe_id (resolve_request_id 7 (some " req-1 ")) ≡ true)
    × All (Carries (resolve_request_id 7 (some " req-1 "))) (forwarded 7 reading answer)
    × (status_after 500 (forwarded 7 reading answer) ≡ status_after 500 answer)
forwarded-Carries_example = forwarded-Carries 7 reading answer refl untagged

resolve_request_id-propagates_example :
    resolve_request_id 8 (some (resolve_request_id 7 (some " req-1 ")))
    ≡ resolve_request_id 7 (some " req-1 ")
resolve_request_id-propagates_example = resolve_request_id-propagates 7 8 (some " req-1 ")
