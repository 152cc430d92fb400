-- ===== src/Worker/Process/Command.antt =====
-- What `python -m app.worker` hands to arq.
use ketabdan_ms.Prelude.{ℕ, String, ◌≡◌, ap, ◌∙◌, nat_eq, string_eq, Result, ok, err}
use ketabdan_ms.Prelude.Text.{Unicode}
use ketabdan_ms.Logging.{
  Level, resolve_level, Loggers, set_level, installed, app_log_handlers, configure_logging,
}
use ketabdan_ms.Config.{Settings}
use ketabdan_ms.Worker.Process.{
  WorkerSettings, with_redis, imported, worker_settings, then_run, worker_main,
}

-- The worker's settings as arq is to see them: two minutes for a job, twenty-five tries as the outer
-- bound, and a heartbeat every thirty seconds
abbrev pub expected_settings : {R : Type 0} → R → WorkerSettings R
expected_settings redis = record {
  queue_name = "ketabdaneh:notifications";
  redis_settings = redis;
  job_timeout = 120;
  max_tries = 25;
  health_check_interval = 30;
}

pub main-expected :
    {R : Type 0} (from_dsn : String → Result String R) (redis : R) (u : Unicode) (l : Loggers)
    (s : Settings) (level : ℕ)
    → from_dsn s.redis_url ≡ ok redis
    → resolve_level u (Level.name s.log_level) ≡ ok level
    → (worker_main from_dsn u s l).0 ≡ ok (expected_settings redis)
unfolding worker_main worker_settings configure_logging
main-expected from_dsn redis u l s level parsed known =
    ap (λ r. (imported from_dsn u s l (with_redis from_dsn r)).0) parsed
    ∙ ap
        (λ r.
          (then_run from_dsn (expected_settings redis)
            (set_level r (installed (app_log_handlers l) l))).0)
        known

-- If arq's `RedisSettings` cannot be made of the URL, the module's import raises: the worker does not
-- run, and logging is left as it was.
main-unparsed :
    {R : Type 0} (from_dsn : String → Result String R) (name : String) (u : Unicode) (l : Loggers)
    (s : Settings)
    → from_dsn s.redis_url ≡ err name
    → worker_main from_dsn u s l ≡ (err name, l)
unfolding worker_main worker_settings
main-unparsed from_dsn name u l s h = ap (λ r. imported from_dsn u s l (with_redis from_dsn r)) h
