-- ===== src/Worker/Service.antt =====
-- apps/api/app/worker/service.py: the queue service and its cached Redis pool.
pub mod Pool
use ketabdan_ms.Prelude.{
  ℕ, zero, suc, ◌+◌, ◌-◌, ◌*◌, ◌/◌, ◌%◌, ◌^◌, ◌≤◌, ◌<◌, String, ◌≡◌, refl, sym, ap, ◌∙◌, ◌≢◌, ◌↔◌,
  ◌⊎◌, inl, inr, Bool, true, false, not, ◌&&◌, ◌||◌, Option, none, some, List, [], ◌∷◌, ◌++◌, map,
  arith, eq_iff, ltb, leb, eqb, if◌then◌else◌, Bool-cases, Option-cases, ltb→lt, lt→ltb, leb→le, Eq,
  ◌==◌, nat_eq, string_eq, ==_refl, ==→≡, Result, ok, err, ◌>>=◌, >>=-eq-ok, length, length-append,
  find, keep, any, All, Any, elem,
}
use ketabdan_ms.Json.{Json, str, obj, Fields, end}
use ketabdan_ms.Worker.Jobs.{NotificationJob, JobError, deliver_function_name, make_job, to_payload}

-- What the service asks of Redis: a connection, which may fail with an exception class, and on a
-- pool `enqueue_job`. A pool is known by a number.
pub data Answer : Type 0 where
  done : Answer
  raised : String → Answer

pub record Redis : Type 0 where
  pub connect : Result String ℕ
  pub enqueue_job : ℕ → String → Json → Answer

-- The service object; `queued` is what Redis has accepted so far, with the
-- pool it came through, and `released` the pools that were closed.
pub record BackgroundNotificationService : Type 0 where
  pub pool : Option ℕ
  pub queued : List (ℕ × String × Json)
  pub released : List ℕ

pub data ServiceError : Type 0 where
  malformed : JobError → ServiceError
  could_not_connect : String → ServiceError
  could_not_enqueue : String → ServiceError

-- `metadata or {}`
abbrev or_empty : Option Fields → Fields
or_empty none = end
or_empty (some fs) = fs

abbrev pub Call : Type 0 → Type 0
Call A = Result ServiceError A × BackgroundNotificationService

module _ (redis : Redis) where
  abbrev pub connected : BackgroundNotificationService → Result String ℕ → Call ℕ
  connected s (ok p) = (ok p, record s { pool = some p })
  connected s (err name) = (err (could_not_connect name), s)

  abbrev pub cached_or_new : BackgroundNotificationService → Option ℕ → Call ℕ
  cached_or_new s (some p) = (ok p, s)
  cached_or_new s none = connected s redis.connect

  abbrev pub get_pool : BackgroundNotificationService → Call ℕ
  get_pool s = cached_or_new s s.pool

  -- A failed command drops the cached pool, so that the next call connects again.
  abbrev pub answered :
      NotificationJob → ℕ → BackgroundNotificationService → Answer → Call NotificationJob
  answered job p s done =
      (ok job, record s { queued = (p, deliver_function_name, to_payload job) ∷ s.queued })
  answered job p s (raised name) = (err (could_not_enqueue name), record s { pool = none })

  abbrev pub enqueue_on : NotificationJob → ℕ → BackgroundNotificationService → Call NotificationJob
  enqueue_on job p s = answered job p s (redis.enqueue_job p deliver_function_name (to_payload job))

  abbrev pub with_pool : NotificationJob → Call ℕ → Call NotificationJob
  with_pool job (ok p, s) = enqueue_on job p s
  with_pool job (err e, s) = (err e, s)

  abbrev pub if_made :
      BackgroundNotificationService → Result JobError NotificationJob → Call NotificationJob
  if_made s (ok job) = with_pool job (get_pool s)
  if_made s (err e) = (err (malformed e), s)

  unfoldable pub enqueue_notification :
      (channel address text category : String) (metadata : Option Fields)
      → BackgroundNotificationService
      → Call NotificationJob
  enqueue_notification channel address text category metadata s =
      if_made s
        (make_job (str channel) (str address) (str text) (str category) (obj (or_empty metadata)))

-- Shutdown never raises, whatever `aclose` does: the pool is closed if there is one, and forgotten.
unfoldable pub close : BackgroundNotificationService → BackgroundNotificationService
close s = elim s.pool [ none ↦ s | some p ↦ record s { pool = none; released = p ∷ s.released } ]
