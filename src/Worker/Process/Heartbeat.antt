-- ===== src/Worker/Process/Heartbeat.antt =====
-- The container's health check and readiness read the heartbeat that arq's worker writes.
use ketabdan_ms.Prelude.{
  ℕ, zero, suc, String, ◌≡◌, refl, ap, ◌∙◌, ◌↔◌, Bool, true, false, none, some, arith,
  if◌then◌else◌, nat_eq, string_eq, Result, ok, err,
}
use Prim.Native.String.{◌++◌ as ◌+s◌}
use ketabdan_ms.Config.{Settings}
use ketabdan_ms.Http.{check_worker_heartbeat}
use ketabdan_ms.Worker.Jobs.{notification_queue_name}
use ketabdan_ms.Worker.Process.{
  WorkerSettings, with_redis, worker_settings, readiness_heartbeat, healthcheck_exit, healthcheck,
}

settings-queue_name :
    {R : Type 0} (from_dsn : String → Result String R) (x : Result String R)
    (worker : WorkerSettings R)
    → with_redis from_dsn x ≡ ok worker
    → worker.queue_name ≡ notification_queue_name
settings-queue_name from_dsn (ok redis) worker h = ground arith
settings-queue_name from_dsn (err name) worker h = cc

module _ (exists : String → String → Result String ℕ) (suffix : String) where
  -- The answer to `EXISTS` for a key that Redis has
  abbrev pub Positive : Result String ℕ → Type 0
  Positive a = (n : ℕ) × (a ≡ ok (suc n))

  readiness-answer :
      (in_time : Bool) (a : Result String ℕ)
      → (check_worker_heartbeat (if in_time then a else err "TimeoutError") ≡ "ok")
        ↔ ((in_time ≡ true) × Positive a)
  unfolding check_worker_heartbeat
  readiness-answer true (ok zero) = (λ h. cc, λ (t, (n, e)). absurd (ground arith))
  readiness-answer true (ok (suc n)) = (λ h. (refl, (n, refl)), λ h. refl)
  readiness-answer true (err x) = (λ h. cc, λ (t, (n, e)). cc)
  readiness-answer false a = (λ h. cc, λ (t, p). cc)

  exit-answer : (a : Result String ℕ) → (healthcheck_exit exists suffix a ≡ 0) ↔ Positive a
  exit-answer (ok zero) = (λ h. absurd (omega (arith, h)), λ (n, e). absurd (ground arith))
  exit-answer (ok (suc n)) = (λ h. (n, refl), λ h. refl)
  exit-answer (err x) = (λ h. absurd (omega (arith, h)), λ (n, e). cc)

  -- Where arq's worker keeps its heartbeat under its queue's name with arq's suffix, readiness reports
  -- a worker exactly when Redis answers in time that the heartbeat of the worker with the settings'
  -- queue is there, and the container's health check exits with 0 exactly when the Redis of its own
  -- `REDIS_URL` answers so; without that variable it exits with 1.
  pub healthcheck-readiness_heartbeat :
      {R : Type 0} (from_dsn : String → Result String R) (heartbeat_key : WorkerSettings R → String)
      (s : Settings) (worker : WorkerSettings R) (in_time : Bool) (url : String)
      → heartbeat_key worker ≡ worker.queue_name +s suffix
      → worker_settings from_dsn s ≡ ok worker
      → ((readiness_heartbeat exists suffix s in_time ≡ "ok")
          ↔ ((in_time ≡ true) × Positive (exists s.redis_url (heartbeat_key worker))))
        × ((healthcheck exists suffix (some url) ≡ 0)
            ↔ Positive (exists url (heartbeat_key worker)))
        × (healthcheck exists suffix none ≡ 1)
  unfolding readiness_heartbeat healthcheck worker_settings
  healthcheck-readiness_heartbeat from_dsn heartbeat_key s worker in_time url law configured =
      let key : (heartbeat_key worker ≡ notification_queue_name +s suffix) =
        law
        ∙ ap (λ q. q +s suffix)
            (settings-queue_name from_dsn (from_dsn s.redis_url) worker configured) in
      rw key (
        readiness-answer in_time (exists s.redis_url (notification_queue_name +s suffix)),
        exit-answer (exists url (notification_queue_name +s suffix)),
        refl,
      )
