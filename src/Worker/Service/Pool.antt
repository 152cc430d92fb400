-- ===== src/Worker/Service/Pool.antt =====
-- The queue service: what is queued, and when the cached pool is kept or dropped.
use ketabdan_ms.Prelude.{
  ℕ, String, ◌≡◌, refl, sym, ◌⊎◌, inl, inr, Option, none, some, ◌∷◌, arith, nat_eq, string_eq,
  Result, ok, err,
}
use ketabdan_ms.Json.{Fields}
use ketabdan_ms.Worker.Jobs.{
  NotificationJob, JobError, deliver_function_name, to_payload, from_payload,
}
use ketabdan_ms.Worker.Jobs.RoundTrip.{IsJob, make_job-IsJob, from_payload-to_payload}
use ketabdan_ms.Worker.Service.{
  Redis, BackgroundNotificationService, ServiceError, could_not_enqueue, done, raised,
  enqueue_notification, answered, connected, cached_or_new, with_pool, if_made, Answer,
}

-- Where a pool comes from: the cache, or a new connection.
abbrev pub Obtained : Redis → BackgroundNotificationService → ℕ → Type 0
Obtained redis s p = (s.pool ≡ some p) ⊎ ((s.pool ≡ none) × (redis.connect ≡ ok p))

pub record Queued (redis : Redis) (s s' : BackgroundNotificationService) (job : NotificationJob)
    : Type 0 where
  pub through : ℕ
  pub obtained : Obtained redis s through
  pub cached : s'.pool ≡ some through
  pub queued : s'.queued ≡ (through, deliver_function_name, to_payload job) ∷ s.queued
  pub accepted : from_payload (to_payload job) ≡ ok job

module _ (redis : Redis) where
  answered-ok :
      (s0 s : BackgroundNotificationService) (made job : NotificationJob) (p : ℕ) (x : Answer)
      → IsJob made
      → Obtained redis s0 p
      → s.pool ≡ some p
      → s.queued ≡ s0.queued
      → (answered redis made p s x).0 ≡ ok job
      → Queued redis s0 (answered redis made p s x).1 job
  answered-ok s0 s made job p done v o cached same h =
      let e : made ≡ job = cc in
      record {
        through = p;
        obtained = o;
        cached = cached;
        queued = cc;
        accepted = rw (sym e) (from_payload-to_payload made v);
      }
  answered-ok s0 s made job p (raised name) v o cached same h = cc

  connected-ok :
      (s : BackgroundNotificationService) (made job : NotificationJob) (c : Result String ℕ)
      → IsJob made
      → s.pool ≡ none
      → redis.connect ≡ c
      → (with_pool redis made (connected redis s c)).0 ≡ ok job
      → Queued redis s (with_pool redis made (connected redis s c)).1 job
  connected-ok s made job (ok p) v e e' h =
      answered-ok s (record s { pool = some p }) made job p _ v (inr (e, e')) refl refl h
  connected-ok s made job (err name) v e e' h = cc

  cached_or_new-ok :
      (s : BackgroundNotificationService) (made job : NotificationJob) (o : Option ℕ)
      → IsJob made
      → s.pool ≡ o
      → (with_pool redis made (cached_or_new redis s o)).0 ≡ ok job
      → Queued redis s (with_pool redis made (cached_or_new redis s o)).1 job
  cached_or_new-ok s made job (some p) v e h = answered-ok s s made job p _ v (inl e) e refl h
  cached_or_new-ok s made job none v e h = connected-ok s made job redis.connect v e refl h

  if_made-ok :
      (s : BackgroundNotificationService) (job : NotificationJob)
      (x : Result JobError NotificationJob)
      → ((made : NotificationJob) → x ≡ ok made → IsJob made)
      → (if_made redis s x).0 ≡ ok job
      → Queued redis s (if_made redis s x).1 job
  if_made-ok s job (ok made) v h = cached_or_new-ok s made job s.pool (v made refl) refl h
  if_made-ok s job (err e) v h = cc

  -- A call that returns has queued exactly one job, through the cached pool or a new connection,
  -- which is now cached; the worker rebuilds that job from what was queued.
  pub enqueue-ok :
      (channel address text category : String) (metadata : Option Fields)
      (s : BackgroundNotificationService) (job : NotificationJob)
      → (enqueue_notification redis channel address text category metadata s).0 ≡ ok job
      → Queued redis s (enqueue_notification redis channel address text category metadata s).1 job
  unfolding enqueue_notification
  enqueue-ok channel address text category metadata s job h =
      if_made-ok s job _ (λ made e. make_job-IsJob _ _ _ _ _ made e) h

  abbrev pub pool_after : BackgroundNotificationService → ServiceError → Option ℕ
  pool_after s (could_not_enqueue name) = none
  pool_after s _ = s.pool

  -- A call that raises has queued nothing. A failed command leaves no cached pool, so that the next
  -- call connects again; malformed input and a failed connection leave the pool as it was.
  enqueue-err :
      (channel address text category : String) (metadata : Option Fields)
      (s : BackgroundNotificationService) (e : ServiceError)
      → (enqueue_notification redis channel address text category metadata s).0 ≡ err e
      → ((enqueue_notification redis channel address text category metadata s).1.queued ≡ s.queued)
        × ((enqueue_notification redis channel address text category metadata s).1.pool
            ≡ pool_after s e)
  unfolding enqueue_notification
  enqueue-err channel address text category metadata s e h = ground arith
