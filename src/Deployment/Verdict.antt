-- ===== src/Deployment/Verdict.antt =====
-- What an exit code of zero shows about a deployment.
use ketabdan_ms.Prelude.{
  ℕ, String, ◌≡◌, ◌≢◌, ==→≡, eqb_iff, refl, inl, inr, Bool, true, false, not, ◌||◌, Option, some,
  List, [], ◌∷◌, arith, Bool-cases, ◌==◌, nat_eq, string_eq, any, All,
}
use ketabdan_ms.Json.{Json}
use ketabdan_ms.Deployment.{
  Checked, Response, Fetched, exited, Container, Listed, containers, listing_failed, listing_raised,
  Site, verdict, get_request,
}
use ketabdan_ms.Deployment.Checks.{
  redirects, judge_health, judge_readiness, port_name, check_http_redirect, check_web,
  check_web_pages, check_api_health, readiness_reply, ready_checks, check_auth, check_metrics,
  check_ports, checks_of,
}
use ketabdan_ms.Deployment.Passing.{
  passes, both, verdict-true, crash-fails, Judged, check_reply-Judged, all_true-All,
}
use ketabdan_ms.Deployment.Expected.{
  Answered, ToHttps, HasText, HasChecks, Allowed, Running, Healthy,
}
use ketabdan_ms.Deployment.Replies.{
  key_is-HasText, judge_checks-object, checks-HasChecks, judge_probe-answer, redirects-ToHttps,
}
use ketabdan_ms.Deployment.Stack.{publishers-Allowed, runs-Running, runs-Healthy}
use ketabdan_ms.Prelude.Text.{strip}
use ketabdan_ms.Deployment.Containers.{
  service_of, by_service, row_of, violates, runs, all_services, check_rows, check_docker,
  run_checks, is_failure, exit_code,
}

-- Of the last container of each service, only the proxy's publishes, on its two ports; the six services
-- run, and all but the proxy are healthy.
pub record Contained (listed : Listed) : Type 0 where
  pub all : List Container
  pub given : listed ≡ containers all
  pub private : All (λ c. All (Allowed (service_of c)) c.publishers) (by_service all)
  pub healthy : All (Healthy all) ("postgres" ∷ "redis" ∷ "api" ∷ "worker" ∷ "web" ∷ [])
  pub proxy : Running all "caddy"

rows-checked :
    (rows : List Container) (ready : Json)
    → passes (check_rows rows ready) ≡ true
    → (any (λ c. any (violates (service_of c)) c.publishers) rows ≡ false)
      × All (λ service. runs service (row_of service rows) ≡ true) all_services
rows-checked rows ready h =
    let (private, rest) = both _ _ h in
    let (running, beat) = both _ _ rest in
    let p = verdict-true _ _ private in
    (
      ground arith,
      all_true-All (λ service. runs service (row_of service rows)) all_services
          (verdict-true _ _ running),
    )

docker-Contained :
    (listed : Listed) (ready : Json) → passes (check_docker listed ready) ≡ true → Contained listed
docker-Contained (containers cs) ready h =
    let (private, (postgres, (redis, (api, (worker, (web, (caddy, nil))))))) =
      rows-checked (by_service cs) ready h in
    record {
      all = cs;
      given = refl;
      private = publishers-Allowed (by_service cs) private;
      healthy = (
        runs-Healthy cs "postgres" refl postgres,
        (
          runs-Healthy cs "redis" refl redis,
          (
            runs-Healthy cs "api" refl api,
            (runs-Healthy cs "worker" refl worker, (runs-Healthy cs "web" refl web, tt)),
          ),
        ),
      );
      proxy = runs-Running cs "caddy" caddy;
    }
docker-Contained listing_failed ready h =
    let (first, rest) = both _ _ h in let impossible = verdict-true _ _ first in cc
docker-Contained listing_raised ready h = crash-fails h

module _ (site : Site) where
  -- What holds of a deployment that passes
  pub record Deployed (http_base base : String) (forbidden : List ℕ) : Type 0 where
    pub to_https : Answered ToHttps (site.fetch 0 (get_request http_base "/"))
    pub health :
        Answered
          (λ r. (r.status ≡ 200) × HasText (site.loads r.body) "status" "ok")
          (site.fetch 4 (get_request base "/api/health"))
    pub ready :
        Answered
          (λ r. (r.status ≡ 200) × HasChecks (site.loads r.body))
          (site.fetch 5 (get_request base "/api/health/ready"))
    pub me_guarded : Answered (λ r. r.status ≡ 401) (site.fetch 8 (get_request base "/api/auth/me"))
    pub persons_guarded :
        Answered (λ r. r.status ≡ 401) (site.fetch 9 (get_request base "/api/persons"))
    pub metrics_private :
        Answered (λ r. r.status ≢ 200) (site.fetch 10 (get_request base "/metrics"))
    pub probed : (stdout : String) × (site.probe ≡ exited 0 stdout) × (strip stdout ≡ "200")
    pub ports : All (λ port. site.listening port ≡ false) forbidden
    pub stack : Contained site.compose_ps

  mapped :
      (P : Response → Type 0) (judge : Response → Option Bool) (reply : Fetched)
      → ((r : Response) → judge r ≡ some true → P r)
      → Judged judge reply
      → Answered P reply
  mapped P judge reply f (r, came, true_of) = (r, came, f r true_of)

  some-true : (b : Bool) → some b ≡ some true → b ≡ true
  some-true b h = cc

  ready-HasChecks :
      (r : Response)
      → judge_readiness site r ≡ some true
      → (r.status ≡ 200) × HasChecks (site.loads r.body)
  ready-HasChecks r h =
      let (status, cs, object, database, redis) =
        judge_checks-object site r.status (checks_of site (site.loads r.body)) h in
      (status, checks-HasChecks site (site.loads r.body) cs object database redis)

  ports-closed :
      (ports : List ℕ)
      → passes (check_ports site ports) ≡ true
      → All (λ port. site.listening port ≡ false) ports
  ports-closed [] h = tt
  ports-closed (port ∷ ports) h =
      let (first, rest) =
        both (verdict (port_name site port) (not (site.listening port))) (check_ports site ports)
          h in
      (
        let closed = verdict-true (port_name site port) (not (site.listening port)) first in
            ground arith,
        ports-closed ports rest,
      )

  exit-passes : (c : Checked) → exit_code c ≡ 0 → passes c ≡ true
  unfolding exit_code passes
  exit-passes c h = elim (Bool-cases (c.crashed || any is_failure c.rows)) [
    | inl e ↦ (let h' = rw e at h in absurd (omega (arith, h')))
    | inr e ↦ rw e refl
  ]

  -- If the script exits with 0, then: plain HTTP answers `/` with 301 or 308 to an https:// URL; health
  -- answers 200 with status ok, and readiness 200 with database and Redis ok; the identity and the people
  -- answer 401 without a token; the edge does not answer /metrics with 200, while the probe inside the
  -- network exits with 0 and prints 200; no forbidden port of 127.0.0.1 accepts the connection; the
  -- last container that is listed of each of the six services is running, and healthy but for the
  -- proxy; and of these last containers only the proxy's publish a port, for its own 80 or 443.
  pub exit_code-Deployed :
      (http_base base username password : String) (forbidden : List ℕ)
      → exit_code (run_checks site http_base base username password forbidden) ≡ 0
      → Deployed http_base base forbidden
  unfolding run_checks
  exit_code-Deployed http_base base username password forbidden h =
      let all = exit-passes _ h in
      let (redirect, rest1) = both (check_http_redirect site http_base) _ all in
      let (web, rest2) = both (check_web site base) _ rest1 in
      let (pages, rest3) = both (check_web_pages site base) _ rest2 in
      let (health, rest4) = both (check_api_health site base) _ rest3 in
      let (auth, rest5) = both (check_auth site base username password) _ rest4 in
      let (metrics, rest6) = both (check_metrics site base) _ rest5 in
      let (ports, docker) = both (check_ports site forbidden) _ rest6 in
      let (alive, ready) = both _ _ health in
      let (login, guards) = both _ _ auth in
      let (me, persons) = both _ _ guards in
      let (edge, inside) = both _ _ metrics in
      record {
        to_https =
            mapped ToHttps (λ r. some (redirects r)) _
              (λ r t. redirects-ToHttps site r (some-true (redirects r) t))
              (check_reply-Judged _ _ _ redirect);
        health =
            mapped _ (judge_health site) _
              (λ r t. key_is-HasText site (site.loads r.body) r.status "status" "ok" t)
              (check_reply-Judged _ _ _ alive);
        ready = mapped _ (judge_readiness site) _ ready-HasChecks (check_reply-Judged _ _ _ ready);
        me_guarded =
            mapped _ (λ r. some (r.status == 401)) _
              (λ r t. ==→≡ r.status 401 (some-true (r.status == 401) t))
              (check_reply-Judged _ _ _ me);
        persons_guarded =
            mapped _ (λ r. some (r.status == 401)) _
              (λ r t. ==→≡ r.status 401 (some-true (r.status == 401) t))
              (check_reply-Judged _ _ _ persons);
        metrics_private =
            mapped _ (λ r. some (not (r.status == 200))) _
              (λ r t e.
                let judged = some-true (not (r.status == 200)) t in
                ground (arith, eqb_iff r.status 200))
              (check_reply-Judged _ _ _ edge);
        probed = judge_probe-answer site site.probe (verdict-true _ _ inside);
        ports = ports-closed forbidden ports;
        stack =
            docker-Contained site.compose_ps (ready_checks site (readiness_reply site base)) docker;
      }
