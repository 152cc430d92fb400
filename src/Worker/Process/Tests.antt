-- ===== src/Worker/Process/Tests.antt =====
-- A worker of the sample settings, with a server that raises at its shutdown.
use ketabdan_ms.Prelude.{
  ℕ, String, ◌≡◌, ◌↔◌, refl, true, ◌&&◌, none, some, [], if◌then◌else◌, ◌==◌, nat_eq, string_eq,
  Result, ok,
}
use ketabdan_ms.Config.Tests.{live_settings-load}
use ketabdan_ms.Logging.{Loggers}
use ketabdan_ms.Samples.{ascii, platform, raw_settings, live_settings, accepting}
use ketabdan_ms.Worker.Process.{
  MetricsServers, WorkerContext, empty_context, startup, WorkerSettings, worker_settings,
  worker_main, readiness_heartbeat, healthcheck,
}
use ketabdan_ms.Worker.Process.Command.{expected_settings}
use ketabdan_ms.Worker.Process.Lifecycle.{IsReady, shutdowns, server_list, startup-then-shutdown}
use ketabdan_ms.Worker.Process.Heartbeat.{Positive, healthcheck-readiness_heartbeat}

abbrev servers : MetricsServers
servers = record { start_http_server = λ port. ok port; shutdown_raises = λ n. some "OSError" }

abbrev fresh : Loggers
fresh = record {
  root_handlers = [];
  root_level = 30;
  access_handlers = [];
  access_propagates = true;
  arq_worker_level = 0;
}

-- arq's settings, known by the URL
abbrev taken : String → Result String String
taken url = ok url

startup-then-shutdown_example :
    ((worker_main taken ascii live_settings fresh).0 ≡ ok (expected_settings "redis://q:6379"))
    × (ctx : WorkerContext) × (startup servers
          (λ j. "")
          (λ n. "10")
          accepting
          live_settings
          empty_context
        ≡ (ok tt, ctx))
    × IsReady servers (λ j. "") (λ n. "10") accepting live_settings ctx
    × ((shutdowns servers 3 ctx).shut_down ≡ server_list ctx.metrics_server)
    × ((shutdowns servers 3 ctx).metrics_server ≡ none)
startup-then-shutdown_example =
    startup-then-shutdown taken "redis://q:6379" platform servers (λ j. "") (λ n. "10") accepting
      ascii fresh raw_settings live_settings live_settings-load refl (λ ne. (9100, refl)) 2

-- Redis with the heartbeat of a running worker, at the sample's URL.
abbrev beating : String → String → Result String ℕ
beating url key =
    if (url == "redis://q:6379") && (key == "ketabdaneh:notifications:health-check")
    then ok 1
    else ok 0

abbrev arq_key : WorkerSettings String → String
arq_key w = Prim.Native.String.◌++◌ w.queue_name ":health-check"

configured : worker_settings taken live_settings ≡ ok (expected_settings "redis://q:6379")
unfolding worker_settings
configured = refl

healthcheck-readiness_heartbeat_example :
    ((readiness_heartbeat beating ":health-check" live_settings true ≡ "ok") ↔ (
      (true ≡ true)
      × Positive beating ":health-check"
          (beating live_settings.redis_url (arq_key (expected_settings "redis://q:6379")))))
    × ((healthcheck beating ":health-check" (some "redis://q:6379") ≡ 0)
        ↔ Positive beating ":health-check"
            (beating "redis://q:6379" (arq_key (expected_settings "redis://q:6379"))))
    × (healthcheck beating ":health-check" none ≡ 1)
healthcheck-readiness_heartbeat_example =
    healthcheck-readiness_heartbeat beating ":health-check" taken arq_key live_settings
      (expected_settings "redis://q:6379") true "redis://q:6379" refl configured

heartbeat_found : healthcheck beating ":health-check" (some "redis://q:6379") ≡ 0
unfolding healthcheck
heartbeat_found = refl
