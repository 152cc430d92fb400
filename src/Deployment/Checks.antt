-- ===== src/Deployment/Checks.antt =====
-- The checks of scripts/verify_deployment.py and the exit code of its `main`. The command line is
-- parsed: `username`, `password`, the two base URLs and the ports.
use ketabdan_ms.Prelude.{
  ℕ, String, Bool, true, false, not, ◌&&◌, ◌||◌, Option, none, some, List, [], ◌∷◌, ltb, leb,
  if◌then◌else◌, ◌==◌, nat_eq, string_eq,
}
use Prim.Native.String.{[], ◌∷◌, count}
use ketabdan_ms.Prelude.Text.{translate, capitals, small_letters, lower, strip, show}
use ketabdan_ms.Json.{Json, obj, end, to_str}
use ketabdan_ms.Deployment.{
  Checked, Response, Fetched, answered, os_error, other_error, Sent, Probe, exited, probe_failed,
  Site, verdict, skipped, crash, then_check, judged, check_reply, get_request, or_empty,
  starts_with, field_of, is_text, truthy, when_status,
}

-- `needle in s`
unfoldable pub contains : String → String → Bool
contains needle [] = starts_with needle ""
contains needle (c ∷ s) = let rest = contains needle s in starts_with needle (c ∷ s) || rest

-- `bytes.lower()`
unfoldable pub lower_bytes : String → String
lower_bytes [] = ""
lower_bytes (c ∷ s) = translate capitals small_letters c ∷ lower_bytes s

abbrev pub redirects : Response → Bool
redirects r =
    ((r.status == 301) || (r.status == 308))
    && starts_with "https://" (or_empty (r.header "Location"))

abbrev pub redirects_locally : Response → Bool
redirects_locally r =
    leb 300 r.status && ltb r.status 400 && starts_with "/" (or_empty (r.header "Location"))

module _ (site : Site) where
  abbrev pub renders : Response → Bool
  renders r =
      (r.status == 200)
      && (contains "html" (lower site.unicode (or_empty (r.header "Content-Type")))
          && contains "<html" (lower_bytes r.body))
      && ltb 500 (count r.body)

  abbrev pub check_http_redirect : String → Checked
  check_http_redirect http_base =
      check_reply "http_redirects_to_https" (λ r. some (redirects r))
        (site.fetch 0 (get_request http_base "/"))

  abbrev pub check_web : String → Checked
  check_web base =
      check_reply "https_web_serves" (λ r. some (ltb r.status 400))
        (site.fetch 1 (get_request base "/"))

  -- After an `OSError` of the first request the second one is not made.
  abbrev pub check_web_pages : String → Checked
  check_web_pages base = elim (site.fetch 2 (get_request base "/")) [
    | answered r ↦ then_check (verdict "web_locale_redirect" (redirects_locally r)) (
        check_reply "web_page_renders" (λ r. some (renders r))
          (site.fetch 3 (get_request base "/en/login")))
    | os_error ↦ verdict "web_locale_redirect" false
    | other_error ↦ crash
  ]

  -- `json.loads(body)`, then a test of one key where the status is 200
  abbrev pub key_is : Option Json → ℕ → String → (Option Json → Bool) → Option Bool
  key_is none status key wanted = none
  key_is (some payload) status key wanted =
      when_status (status == 200) (field_of key payload) wanted

  abbrev pub judge_health : Response → Option Bool
  judge_health r = key_is (site.loads r.body) r.status "status" (is_text "ok")

  -- `payload.get("checks", {})`
  abbrev pub checks_of : Option Json → Option Json
  checks_of none = none
  checks_of (some payload) = elim (field_of "checks" payload) [
    | none ↦ none
    | some none ↦ some (obj end)
    | some (some checks) ↦ some checks
  ]

  abbrev pub services_ok : Option (Option Json) → Option (Option Json) → Option Bool
  services_ok (some database) (some redis) = some (is_text "ok" database && is_text "ok" redis)
  services_ok database redis = none

  abbrev pub judge_checks : ℕ → Option Json → Option Bool
  judge_checks status none = none
  judge_checks status (some checks) =
      if not (status == 200)
      then some false
      else services_ok (field_of "database" checks) (field_of "redis" checks)

  abbrev pub judge_readiness : Response → Option Bool
  judge_readiness r = judge_checks r.status (checks_of (site.loads r.body))

  abbrev pub readiness_reply : String → Fetched
  readiness_reply base = site.fetch 5 (get_request base "/api/health/ready")

  abbrev pub check_api_health : String → Checked
  check_api_health base =
      then_check
        (check_reply "api_health_public" judge_health
          (site.fetch 4 (get_request base "/api/health")))
        (check_reply "api_readiness_public" judge_readiness (readiness_reply base))

  -- The value that `check_api_health` returns
  abbrev pub ready_checks_of : Option Json → Json
  ready_checks_of none = obj end
  ready_checks_of (some checks) = checks

  abbrev pub ready_checks : Fetched → Json
  ready_checks (answered r) = ready_checks_of (checks_of (site.loads r.body))
  ready_checks os_error = obj end
  ready_checks other_error = obj end

  abbrev pub login_request : String → String → String → Sent
  login_request base username password = record {
    base = base;
    path = "/api/auth/login";
    method = "POST";
    authorization = none;
    body = some (site.dumps_login username password);
  }

  abbrev pub judge_login : Response → Option Bool
  judge_login r = key_is (site.loads r.body) r.status "access_token" truthy

  abbrev pub bearer_request : String → Json → Sent
  bearer_request base token = record {
    base = base;
    path = "/api/auth/me";
    method = "GET";
    authorization = some (Prim.Native.String.◌++◌ "Bearer " (to_str site.repr token));
    body = none;
  }

  abbrev pub check_me : String → String → Json → Checked
  check_me base username token =
      check_reply "me_with_token"
        (λ r. key_is (site.loads r.body) r.status "username" (is_text username))
        (site.fetch 7 (bearer_request base token))

  -- The token of a login that was judged to work
  abbrev pub login_token : Option Json → Option Json
  login_token none = none
  login_token (some payload) = elim (field_of "access_token" payload) [ none ↦ none | some v ↦ v ]

  abbrev pub me_after : String → String → Option Bool → Option Json → Checked
  me_after base username (some true) (some token) = check_me base username token
  me_after base username judgement token = skipped "me_with_token"

  abbrev pub check_login : String → String → Fetched → Checked
  check_login base username reply = elim reply [
    | answered r ↦
        then_check (judged "login_works" (judge_login r))
          (me_after base username (judge_login r) (login_token (site.loads r.body)))
    | os_error ↦ then_check (verdict "login_works" false) (skipped "me_with_token")
    | other_error ↦ crash
  ]

  abbrev pub check_auth : String → String → String → Checked
  check_auth base username password =
      then_check
        (if not (username == "") && not (password == "")
          then check_login base username (site.fetch 6 (login_request base username password))
          else then_check (skipped "login_works") (skipped "me_with_token"))
        (then_check
          (check_reply "me_requires_auth" (λ r. some (r.status == 401))
            (site.fetch 8 (get_request base "/api/auth/me")))
          (check_reply "protected_route_401" (λ r. some (r.status == 401))
            (site.fetch 9 (get_request base "/api/persons"))))

  abbrev pub judge_probe : Probe → Bool
  judge_probe (exited code stdout) = (code == 0) && (strip stdout == "200")
  judge_probe probe_failed = false

  abbrev pub check_metrics : String → Checked
  check_metrics base =
      then_check
        (check_reply "metrics_not_public" (λ r. some (not (r.status == 200)))
          (site.fetch 10 (get_request base "/metrics")))
        (verdict "metrics_internal_only" (judge_probe site.probe))

  abbrev pub port_name : ℕ → String
  port_name port =
      Prim.Native.String.◌++◌ "port_" (Prim.Native.String.◌++◌ (show port) "_not_public")

  abbrev pub check_ports : List ℕ → Checked
  check_ports [] = record { rows = []; crashed = false }
  check_ports (port ∷ ports) =
      then_check (verdict (port_name port) (not (site.listening port))) (check_ports ports)
