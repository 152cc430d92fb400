-- ===== src/Http.antt =====
-- apps/api/app/api/middleware.py and apps/api/app/api/health.py: the correlation id of a request,
-- and the readiness answer.
pub mod RequestId
pub mod Readiness
pub mod Middleware
mod Tests
use ketabdan_ms.Prelude.{
  ℕ, zero, suc, ◌+◌, ◌-◌, ◌*◌, ◌/◌, ◌%◌, ◌^◌, ◌≤◌, ◌<◌, String, ◌≡◌, refl, sym, ap, ◌∙◌, ◌≢◌, ◌↔◌,
  ◌⊎◌, inl, inr, Bool, true, false, not, ◌&&◌, ◌||◌, Option, none, some, List, map, arith, eq_iff,
  ltb, leb, eqb, if◌then◌else◌, Bool-cases, Option-cases, ltb→lt, lt→ltb, leb→le, Eq, ◌==◌, nat_eq,
  string_eq, ==_refl, ==→≡, Result, ok, err, ◌>>=◌, >>=-eq-ok, length, length-append, find, keep,
  any, All, Any, elem,
}
use Prim.Native.Char.{Char, code}
use Prim.Native.String.{[], ◌∷◌, count}
use ketabdan_ms.Prelude.Text.{strip}
use ketabdan_ms.Uuid.{uuid_hex}

abbrev pub max_request_id_length : ℕ
max_request_id_length = 64

-- The class `[A-Za-z0-9_.-]`
unfoldable pub is_safe_char : ℕ → Bool
is_safe_char c =
    (leb 65 c && leb c 90)
    || (leb 97 c && leb c 122)
    || (leb 48 c && leb c 57)
    || c == 95
    || c == 46
    || c == 45

unfoldable pub all_safe : String → Bool
unfolding is_safe_char
all_safe [] = true
all_safe (c ∷ s) = is_safe_char (code c) && all_safe s

-- `$` also matches before a line feed that ends the text.
unfoldable pub drop_line_feed : String → String
drop_line_feed [] = []
drop_line_feed (c ∷ s) =
    let rest = drop_line_feed s in if (code c == 10) && (s == "") then [] else c ∷ rest

-- `[A-Za-z0-9_.-]{1,64}` on a whole text
unfoldable pub is_safe_id : String → Bool
unfolding all_safe
is_safe_id s = leb 1 (count s) && leb (count s) max_request_id_length && all_safe s

unfoldable pub matches_safe_request_id : String → Bool
unfolding is_safe_id drop_line_feed
matches_safe_request_id s = is_safe_id s || is_safe_id (drop_line_feed s)

-- `drawn` is the UUID that is used when there is no id or no acceptable one.
abbrev pub accept : ℕ → String → String
accept drawn candidate =
    if not (candidate == "")
      && leb (count candidate) max_request_id_length
      && matches_safe_request_id candidate
    then candidate
    else uuid_hex drawn

unfoldable pub resolve_request_id : ℕ → Option String → String
unfolding matches_safe_request_id strip
resolve_request_id drawn none = uuid_hex drawn
resolve_request_id drawn (some incoming) = accept drawn (strip incoming)

abbrev pub check_ok : String
check_ok = "ok"

abbrev pub check_unavailable : String
check_unavailable = "unavailable"

abbrev pub worker_no_heartbeat : String
worker_no_heartbeat = "no_recent_heartbeat"

-- What the two services answer: a value, or an exception's class, also for a time-out
unfoldable pub check_service : Result String ℕ → String
check_service (ok answer) = check_ok
check_service (err name) = check_unavailable

unfoldable pub check_worker_heartbeat : Result String ℕ → String
check_worker_heartbeat (ok zero) = worker_no_heartbeat
check_worker_heartbeat (ok (suc n)) = check_ok
check_worker_heartbeat (err name) = worker_no_heartbeat

pub record ReadinessRead : Type 0 where
  pub status_code : ℕ
  pub status : String
  pub database : String
  pub redis : String
  pub worker : String

unfoldable pub readiness : Result String ℕ → Result String ℕ → Result String ℕ → ReadinessRead
unfolding check_service check_worker_heartbeat
readiness ping_database ping_redis heartbeat =
    let database = check_service ping_database in
    let redis = check_service ping_redis in
    let ready = (database == check_ok) && (redis == check_ok) in
    record {
      status_code = if ready then 200 else 503;
      status = if ready then check_ok else "not_ready";
      database = database;
      redis = redis;
      worker = check_worker_heartbeat heartbeat;
    }
