-- ===== src/Worker/Process/Lifecycle.antt =====
-- A worker with settings that load starts, and stops however often it is told to.
use ketabdan_ms.Prelude.{
  ℕ, zero, suc, String, ◌≡◌, refl, sym, ap, ◌∙◌, ◌≢◌, ◌⊎◌, inl, inr, Option, none, some, List, [],
  ◌∷◌, ◌++◌, arith, Bool-cases, Option-cases, ◌==◌, nat_eq, string_eq, ==→≡, Result, ok, eqb_iff,
}
use mathlib.Core.List.{append-nil}
use ketabdan_ms.Json.{Json}
use ketabdan_ms.Prelude.Text.{Unicode}
use ketabdan_ms.Logging.{Loggers}
use ketabdan_ms.Logging.Levels.{level-IsKnown}
use ketabdan_ms.Config.{Settings, RawSettings, Platform, load_settings}
use ketabdan_ms.Config.Policy.{InRange, load_settings-InRange}
use ketabdan_ms.Notifications.BotApi.{Transport}
use ketabdan_ms.Notifications.Factory.Delivery.{built, build-eq-ok}
use ketabdan_ms.Worker.Retry.{RetryPolicy, make_policy}
use ketabdan_ms.Worker.Delivery.{retry_policy_from_settings}
use ketabdan_ms.Worker.Process.Command.{expected_settings, main-expected}
use ketabdan_ms.Worker.Process.{
  MetricsServers, WorkerContext, empty_context, expose_metrics, with_policy, with_dispatcher,
  stop_server, pop_server, shutdown, startup, worker_main,
}

abbrev pub policy_of : Settings → RetryPolicy
policy_of s = record {
  max_attempts = s.notification_max_attempts;
  base_delay_seconds = s.notification_retry_base_delay_seconds;
  max_delay_seconds = s.notification_retry_max_delay_seconds;
}

policy-InRange : (s : Settings) → InRange s → retry_policy_from_settings s ≡ ok (policy_of s)
unfolding retry_policy_from_settings make_policy
policy-InRange s v = ground arith

-- `shutdown` called again and again
abbrev pub shutdowns : MetricsServers → ℕ → WorkerContext → WorkerContext
shutdowns servers zero ctx = ctx
shutdowns servers (suc k) ctx = shutdowns servers k (shutdown servers ctx)

abbrev pub server_list : Option ℕ → List ℕ
server_list none = []
server_list (some n) = n ∷ []

-- What `startup` leaves: the dispatcher and the policy of the settings, and a server exactly if
-- there is a port for one.
module _ (servers : MetricsServers) (repr : Json → String) (show_seconds : ℕ → String)
    (transport : Transport) where
  pub record IsReady (s : Settings) (ctx : WorkerContext) : Type 0 where
    pub dispatcher : ctx.notification_dispatcher ≡ some (built repr show_seconds transport s)
    pub policy : ctx.notification_retry_policy ≡ some (policy_of s)
    pub settings : ctx.notification_settings ≡ some s
    pub metrics :
        ((s.worker_metrics_port ≡ 0) × (ctx.metrics_server ≡ none))
        ⊎ ((s.worker_metrics_port ≢ 0)
            × (n : ℕ) × (servers.start_http_server s.worker_metrics_port ≡ ok n)
            × (ctx.metrics_server ≡ some n))

  exposed :
      (s : Settings) (ctx : WorkerContext)
      → (s.worker_metrics_port ≢ 0
          → (n : ℕ) × (servers.start_http_server s.worker_metrics_port ≡ ok n))
      → ctx.notification_dispatcher ≡ some (built repr show_seconds transport s)
      → ctx.notification_retry_policy ≡ some (policy_of s)
      → ctx.notification_settings ≡ some s
      → ctx.metrics_server ≡ none
      → (ctx' : WorkerContext) × (expose_metrics servers s.worker_metrics_port ctx ≡ (ok tt, ctx'))
        × IsReady s ctx'
        × (ctx'.shut_down ≡ ctx.shut_down)
  exposed s ctx there d p t no_server = elim (Bool-cases (s.worker_metrics_port == 0)) [
    | inl e ↦ (
      ctx,
      rw e refl,
      record {
        dispatcher = d;
        policy = p;
        settings = t;
        metrics = inl (==→≡ s.worker_metrics_port 0 e, no_server);
      },
      refl,
    )
    | inr e ↦
        let nonzero : s.worker_metrics_port ≢ 0 =
          λ z. ground (arith, eqb_iff s.worker_metrics_port 0) in
        let (n, started) = there nonzero in
        (
          record ctx { metrics_server = some n },
          rw (e, started) refl,
          record {
            dispatcher = d;
            policy = p;
            settings = t;
            metrics = inr (nonzero, n, started, refl);
          },
          refl,
        )
  ]

  start-IsReady :
      (s : Settings)
      → InRange s
      → (s.worker_metrics_port ≢ 0
          → (n : ℕ) × (servers.start_http_server s.worker_metrics_port ≡ ok n))
      → (ctx : WorkerContext) × (startup servers repr show_seconds transport s empty_context
          ≡ (ok tt, ctx))
        × IsReady s ctx
        × (ctx.shut_down ≡ [])
  unfolding startup
  start-IsReady s v there =
      let with_built = record empty_context {
        notification_dispatcher = some (built repr show_seconds transport s);
      } in
      let (ctx, e, ready, none_stopped) =
        exposed s
          (record with_built {
            notification_retry_policy = some (policy_of s);
            notification_settings = some s;
          })
          there refl refl refl refl in
      (
        ctx,
        ap (with_dispatcher servers s empty_context) (build-eq-ok repr show_seconds transport s)
            ∙ ap (with_policy servers s with_built) (policy-InRange s v)
            ∙ e,
        ready,
        none_stopped,
      )

module _ (servers : MetricsServers) where
  pop-none : (ctx : WorkerContext) → ctx.metrics_server ≡ none → shutdown servers ctx ≡ ctx
  unfolding shutdown
  pop-none ctx h = ap (pop_server servers ctx) h

  stopped :
      (k : ℕ) (ctx : WorkerContext) → ctx.metrics_server ≡ none → shutdowns servers k ctx ≡ ctx
  stopped zero ctx h = refl
  stopped (suc k) ctx h = ap (shutdowns servers k) (pop-none ctx h) ∙ stopped k ctx h

  stop_server-server :
      (ctx : WorkerContext) (n : ℕ) (raises : Option String)
      → ((stop_server servers ctx n raises).metrics_server ≡ none)
        × ((stop_server servers ctx n raises).shut_down ≡ n ∷ ctx.shut_down)
  stop_server-server ctx n none = (refl, refl)
  stop_server-server ctx n (some x) = (refl, refl)

  shutdown-server :
      (ctx : WorkerContext)
      → ((shutdown servers ctx).metrics_server ≡ none)
        × ((shutdown servers ctx).shut_down ≡ server_list ctx.metrics_server ++ ctx.shut_down)
  unfolding shutdown
  shutdown-server ctx = elim (Option-cases ctx.metrics_server) [
    | inl e ↦ (
      ap (λ o. (pop_server servers ctx o).metrics_server) e ∙ e,
      ap (λ o. (pop_server servers ctx o).shut_down) e
          ∙ sym (ap (λ o. server_list o ++ ctx.shut_down) e),
    )
    | inr (n, e) ↦
        (let (a, b) = stop_server-server ctx n (servers.shutdown_raises n) in
          (
            ap (λ o. (pop_server servers ctx o).metrics_server) e ∙ a,
            ap (λ o. (pop_server servers ctx o).shut_down) e
                ∙ b
                ∙ sym (ap (λ o. server_list o ++ ctx.shut_down) e),
          ))
  ]

-- With settings that load and a Redis URL that arq takes, `python -m app.worker` runs arq's worker with
-- the Redis settings that arq reads from that URL, the documented queue and the documented bounds, and
-- `startup` does not raise, if the metrics server starts where there is a port for it: the context has
-- the dispatcher and the policy of the settings. However often `shutdown` is called then, the server,
-- if there is one, is shut down once, and no call raises.
pub startup-then-shutdown :
    {R : Type 0} (from_dsn : String → Result String R) (redis : R) (os : Platform)
    (servers : MetricsServers) (repr : Json → String) (show_seconds : ℕ → String)
    (transport : Transport) (u : Unicode) (l : Loggers) (raw : RawSettings) (s : Settings)
    → load_settings os raw ≡ ok s
    → from_dsn s.redis_url ≡ ok redis
    → (s.worker_metrics_port ≢ 0
        → (n : ℕ) × (servers.start_http_server s.worker_metrics_port ≡ ok n))
    → (k : ℕ)
    → ((worker_main from_dsn u s l).0 ≡ ok (expected_settings redis))
      × (ctx : WorkerContext) × (startup servers repr show_seconds transport s empty_context
          ≡ (ok tt, ctx))
      × IsReady servers repr show_seconds transport s ctx
      × ((shutdowns servers (suc k) ctx).shut_down ≡ server_list ctx.metrics_server)
      × ((shutdowns servers (suc k) ctx).metrics_server ≡ none)
startup-then-shutdown from_dsn redis os servers repr show_seconds transport u l raw s h parsed there
      k =
    let (level, known) =
      level-IsKnown u s.log_level (load_settings-InRange os raw s h).level_known in
    let (ctx, e, ready, fresh) =
      start-IsReady servers repr show_seconds transport s (load_settings-InRange os raw s h)
        there in
    let (gone, once) = shutdown-server servers ctx in
    let same = stopped servers k (shutdown servers ctx) gone in
    (
      main-expected from_dsn redis u l s level parsed known,
      ctx,
      e,
      ready,
      ap (λ (c : WorkerContext). c.shut_down) same
          ∙ once
          ∙ ap (λ xs. server_list ctx.metrics_server ++ xs) fresh
          ∙ append-nil (server_list ctx.metrics_server),
      ap (λ (c : WorkerContext). c.metrics_server) same ∙ gone,
    )
