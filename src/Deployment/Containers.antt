-- ===== src/Deployment/Containers.antt =====
-- The checks of the containers in scripts/verify_deployment.py.
use ketabdan_ms.Prelude.{
  ℕ, String, Bool, true, false, not, ◌&&◌, ◌||◌, Option, none, some, List, [], ◌∷◌, if◌then◌else◌,
  ◌==◌, nat_eq, string_eq, find, any, elem,
}
use ketabdan_ms.Json.{Json}
use ketabdan_ms.Deployment.{
  pass, fail, skip, Row, Checked, Publisher, Container, Listed, containers, listing_failed,
  listing_raised, Site, verdict, crash, then_check, or_empty, field_of, is_text,
}
use ketabdan_ms.Deployment.Checks.{
  check_http_redirect, check_web, check_web_pages, check_api_health, readiness_reply, ready_checks,
  check_auth, check_metrics, check_ports,
}

abbrev pub healthchecked : List String
healthchecked = "api" ∷ "worker" ∷ "postgres" ∷ "redis" ∷ "web" ∷ []

abbrev pub all_services : List String
all_services = "postgres" ∷ "redis" ∷ "api" ∷ "worker" ∷ "web" ∷ "caddy" ∷ []

-- `row.get("Service") or row.get("Name", "")`
abbrev pub service_of : Container → String
service_of c = if or_empty c.service == "" then or_empty c.name else or_empty c.service

-- The dict from services to rows: a later row takes the place of an earlier one.
abbrev pub by_service : List Container → List Container
by_service [] = []
by_service (c ∷ cs) =
    let rest = by_service cs in
    if any (λ d. service_of d == service_of c) cs then rest else c ∷ rest

abbrev pub row_of : String → List Container → Option Container
row_of service rows = find (λ c. service_of c == service) rows

-- Published on the host, and not by the proxy on its two ports
abbrev pub port_or_0 : Option ℕ → ℕ
port_or_0 none = 0
port_or_0 (some n) = n

abbrev pub violates : String → Publisher → Bool
violates service p =
    not (port_or_0 p.published_port == 0)
    && not ((service == "caddy") && ((p.target_port == 80) || (p.target_port == 443)))

abbrev pub runs : String → Option Container → Bool
runs service none = false
runs service (some c) =
    (or_empty c.state == "running")
    && (not (elem service healthchecked) || (or_empty c.health == "healthy"))

abbrev pub all_true : {A : Type 0} → (A → Bool) → List A → Bool
all_true p [] = true
all_true p (x ∷ xs) = p x && all_true p xs

abbrev pub is_healthy : Option Container → Bool
is_healthy none = false
is_healthy (some c) = or_empty c.health == "healthy"

-- `ready_checks.get("worker") == "ok"`, which raises where the checks are no dict
abbrev pub heartbeat : Option (Option Json) → Bool → Checked
heartbeat none healthy = crash
heartbeat (some worker) healthy = verdict "worker_heartbeat" (is_text "ok" worker && healthy)

abbrev pub check_rows : List Container → Json → Checked
check_rows rows ready =
    then_check
      (verdict "only_proxy_publishes"
        (not (any (λ c. any (violates (service_of c)) c.publishers) rows)))
      (then_check
        (verdict "containers_healthy"
          (all_true (λ service. runs service (row_of service rows)) all_services))
        (heartbeat (field_of "worker" ready) (is_healthy (row_of "worker" rows))))

abbrev pub check_docker : Listed → Json → Checked
check_docker (containers cs) ready = check_rows (by_service cs) ready
check_docker listing_failed ready =
    then_check (verdict "only_proxy_publishes" false)
      (then_check (verdict "containers_healthy" false) (verdict "worker_heartbeat" false))
check_docker listing_raised ready = crash

module _ (site : Site) where
  unfoldable pub run_checks :
      (http_base base username password : String) → (forbidden : List ℕ) → Checked
  run_checks http_base base username password forbidden =
      then_check (check_http_redirect site http_base) (
        then_check (check_web site base) (
          then_check (check_web_pages site base) (
            then_check (check_api_health site base) (
              then_check (check_auth site base username password) (
                then_check (check_metrics site base) (
                  then_check (check_ports site forbidden) (
                    check_docker site.compose_ps
                      (ready_checks site (readiness_reply site base)))))))))

abbrev pub is_failure : Row → Bool
is_failure row = elim row.status [ pass ↦ false | fail ↦ true | skip ↦ false ]

-- Python exits with 1 after an exception, too.
unfoldable pub exit_code : Checked → ℕ
exit_code c = if c.crashed || any is_failure c.rows then 1 else 0
