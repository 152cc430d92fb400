-- ===== src/Worker/Process.antt =====
-- The worker process: `startup`, `shutdown` and `WorkerSettings` of
-- apps/api/app/worker/worker.py, apps/api/app/worker/__main__.py, and its health check in
-- apps/api/worker_healthcheck.py.
pub mod Command
pub mod Lifecycle
pub mod Heartbeat
mod Tests
use ketabdan_ms.Prelude.{
  ℕ, zero, suc, ◌+◌, ◌-◌, ◌*◌, ◌/◌, ◌%◌, ◌^◌, ◌≤◌, ◌<◌, String, ◌≡◌, refl, sym, ap, ◌∙◌, ◌≢◌, ◌↔◌,
  ◌⊎◌, inl, inr, Bool, true, false, not, ◌&&◌, ◌||◌, Option, none, some, List, [], ◌∷◌, ◌++◌, map,
  arith, eq_iff, ltb, leb, eqb, if◌then◌else◌, Bool-cases, Option-cases, ltb→lt, lt→ltb, leb→le, Eq,
  ◌==◌, nat_eq, string_eq, ==_refl, ==→≡, Result, ok, err, ◌>>=◌, >>=-eq-ok, length, length-append,
  find, keep, any, All, Any, elem, or_false, concat_map,
}
use Prim.Native.String.{◌++◌ as ◌+s◌}
use ketabdan_ms.Json.{Json}
use ketabdan_ms.Config.{Settings}
use ketabdan_ms.Http.{check_worker_heartbeat}
use ketabdan_ms.Logging.{Level, Loggers, configure_logging}
use ketabdan_ms.Notifications.Dispatcher.{NotificationDispatcher, RegistrationError}
use ketabdan_ms.Notifications.BotApi.{Transport}
use ketabdan_ms.Notifications.Factory.{build_notification_dispatcher}
use ketabdan_ms.Prelude.Text.{Unicode}
use ketabdan_ms.Worker.Retry.{RetryPolicy, PolicyError}
use ketabdan_ms.Worker.Jobs.{notification_queue_name}
use ketabdan_ms.Worker.Delivery.{retry_policy_from_settings, max_tries}

-- prometheus_client's server: it starts on a port, or raises, and its `shutdown` may raise.
pub record MetricsServers : Type 0 where
  pub start_http_server : ℕ → Result String ℕ
  pub shutdown_raises : ℕ → Option String

-- arq's `ctx`, and the servers on which `shutdown` was called.
pub record WorkerContext : Type 0 where
  pub notification_dispatcher : Option NotificationDispatcher
  pub notification_retry_policy : Option RetryPolicy
  pub notification_settings : Option Settings
  pub metrics_server : Option ℕ
  pub shut_down : List ℕ

abbrev pub empty_context : WorkerContext
empty_context = record {
  notification_dispatcher = none;
  notification_retry_policy = none;
  notification_settings = none;
  metrics_server = none;
  shut_down = [];
}

pub data StartupError : Type 0 where
  registration : RegistrationError → StartupError
  policy : PolicyError → StartupError
  server : String → StartupError

abbrev pub Started : Type 0
Started = Result StartupError (Unit {0}) × WorkerContext

module _ (servers : MetricsServers) where
  abbrev pub serving : WorkerContext → Result String ℕ → Started
  serving ctx (ok n) = (ok tt, record ctx { metrics_server = some n })
  serving ctx (err name) = (err (server name), ctx)

  -- Port 0 is no server.
  abbrev pub expose_metrics : ℕ → WorkerContext → Started
  expose_metrics port ctx =
      if port == 0 then (ok tt, ctx) else serving ctx (servers.start_http_server port)

  abbrev pub with_policy : Settings → WorkerContext → Result PolicyError RetryPolicy → Started
  with_policy s ctx (err e) = (err (policy e), ctx)
  with_policy s ctx (ok p) =
      expose_metrics s.worker_metrics_port
        (record ctx { notification_retry_policy = some p; notification_settings = some s })

  abbrev pub with_dispatcher :
      Settings → WorkerContext → Result RegistrationError NotificationDispatcher → Started
  with_dispatcher s ctx (err e) = (err (registration e), ctx)
  with_dispatcher s ctx (ok d) =
      with_policy s (record ctx { notification_dispatcher = some d }) (retry_policy_from_settings s)

  -- `shutdown` never raises, whatever the server's own does; `ctx.pop` forgets the server.
  abbrev pub stop_server : WorkerContext → ℕ → Option String → WorkerContext
  stop_server ctx n none = record ctx { metrics_server = none; shut_down = n ∷ ctx.shut_down }
  stop_server ctx n (some raised) = record ctx {
    metrics_server = none;
    shut_down = n ∷ ctx.shut_down;
  }

  abbrev pub pop_server : WorkerContext → Option ℕ → WorkerContext
  pop_server ctx none = ctx
  pop_server ctx (some n) = stop_server ctx n (servers.shutdown_raises n)

  unfoldable pub shutdown : WorkerContext → WorkerContext
  shutdown ctx = pop_server ctx ctx.metrics_server

  module _ (repr : Json → String) (show_seconds : ℕ → String) (transport : Transport) where
    unfoldable pub startup : Settings → WorkerContext → Started
    startup s ctx =
        with_dispatcher s ctx (build_notification_dispatcher repr show_seconds transport s)

-- The class attributes that arq reads, with arq's own `RedisSettings` of type R.
pub record WorkerSettings (R : Type 0) : Type 0 where
  pub queue_name : String
  pub redis_settings : R
  pub job_timeout : ℕ
  pub max_tries : ℕ
  pub health_check_interval : ℕ

-- `RedisSettings.from_dsn` of arq, which may raise; the class body calls it when the module is imported.
module _ {R : Type 0} (from_dsn : String → Result String R) where
  abbrev pub with_redis : Result String R → Result String (WorkerSettings R)
  with_redis (err name) = err name
  with_redis (ok redis) = ok (record {
    queue_name = notification_queue_name;
    redis_settings = redis;
    job_timeout = 120;
    max_tries = max_tries;
    health_check_interval = 30;
  })

  unfoldable pub worker_settings : Settings → Result String (WorkerSettings R)
  worker_settings s = with_redis (from_dsn s.redis_url)

  -- `python -m app.worker`: the import, then logging, then arq's worker with the settings. What raises
  -- ends it there.
  abbrev pub then_run :
      WorkerSettings R
      → Result String (Unit {0}) × Loggers
      → Result String (WorkerSettings R) × Loggers
  then_run w (ok t, l) = (ok w, l)
  then_run w (err e, l) = (err e, l)

  abbrev pub imported :
      Unicode
      → Settings
      → Loggers
      → Result String (WorkerSettings R)
      → Result String (WorkerSettings R) × Loggers
  imported u s l (err name) = (err name, l)
  imported u s l (ok w) = then_run w (configure_logging u (Level.name s.log_level) l)

  unfoldable pub worker_main :
      Unicode → Settings → Loggers → Result String (WorkerSettings R) × Loggers
  unfolding worker_settings
  worker_main u s l = imported u s l (worker_settings s)

-- Redis, by the URL and the key: `EXISTS key`. `suffix` is arq's `health_check_key_suffix`.
module _ (exists : String → String → Result String ℕ) (suffix : String) where
  -- `WORKER_HEALTH_KEY` of apps/api/app/api/health.py
  abbrev pub worker_health_key : String
  worker_health_key = notification_queue_name +s suffix

  -- `WORKER_HEALTH_KEY` of apps/api/worker_healthcheck.py
  abbrev pub container_health_key : String
  container_health_key = notification_queue_name +s suffix

  -- The check of apps/api/app/api/health.py; `in_time` is whether Redis answers in two seconds.
  unfoldable pub readiness_heartbeat : Settings → Bool → String
  readiness_heartbeat s in_time =
      check_worker_heartbeat
        (if in_time then exists s.redis_url worker_health_key else err "TimeoutError")

  abbrev pub healthcheck_exit : Result String ℕ → ℕ
  healthcheck_exit (ok zero) = 1
  healthcheck_exit (ok (suc n)) = 0
  healthcheck_exit (err name) = 1

  -- The exit code of the container's health check, by `REDIS_URL` in its environment. A KeyError
  -- and an error of Redis leave `main`, which Python answers with 1.
  unfoldable pub healthcheck : Option String → ℕ
  healthcheck none = 1
  healthcheck (some url) = healthcheck_exit (exists url container_health_key)
