-- ===== src/Deployment/Tests.antt =====
-- A deployment as it should be.
use ketabdan_ms.Prelude.{
  ℕ, String, ◌≡◌, refl, false, ◌||◌, Option, none, some, [], ◌∷◌, if◌then◌else◌, ◌==◌, nat_eq,
  string_eq,
}
use ketabdan_ms.Json.{Json, obj, field, end, str, get}
use ketabdan_ms.Prelude.Text.{after_prefix, lower, strip, lstrip, rstrip, is_space}
use ketabdan_ms.Deployment.{
  Fetched, answered, Container, containers, exited, Site, verdict, then_check,
}
use ketabdan_ms.Deployment.Checks.{contains, lower_bytes}
use ketabdan_ms.Deployment.Containers.{run_checks, exit_code}
use ketabdan_ms.Deployment.Verdict.{Deployed, exit_code-Deployed}
use ketabdan_ms.Samples.{ascii}

abbrev no_header : String → Option String
no_header key = none

abbrev plain : ℕ → String → Fetched
plain status body = answered (record { status = status; header = no_header; body = body })

abbrev moved : ℕ → String → Fetched
moved status target = answered (record {
  status = status;
  header = λ key. if key == "Location" then some target else none;
  body = "";
})

-- A page of more than 500 bytes
abbrev page : String
page =
    "<html>01234567890123456789012345678901234567890123456789012345678901234567890123456789012345678901234567890123456789012345678901234567890123456789012345678901234567890123456789012345678901234567890123456789012345678901234567890123456789012345678901234567890123456789012345678901234567890123456789012345678901234567890123456789012345678901234567890123456789012345678901234567890123456789012345678901234567890123456789012345678901234567890123456789012345678901234567890123456789012345678901234567890123456789</html>"

-- The replies in the order of the script
abbrev reply : ℕ → Fetched
reply n =
    if n == 0
    then moved 308 "https://localhost/"
    else (if (n == 1) || (n == 2)
        then moved 307 "/fa"
        else (if n == 3
            then answered (record {
              status = 200;
              header = λ key. if key == "Content-Type" then some "text/html" else none;
              body = page;
            })
            else (if (n == 4) || (n == 5)
                then plain 200 "{}"
                else (if n == 10 then plain 404 "" else plain 401 ""))))

-- One object answers both health and readiness.
abbrev state : Json
state = obj (
    field "status" (str "ok") (
      field "checks"
        (obj
          (field "database" (str "ok") (field "redis" (str "ok") (field "worker" (str "ok") end))))
        end))

abbrev healthy : String → Container
healthy service = record {
  service = some service;
  name = none;
  publishers = [];
  state = some "running";
  health = some "healthy";
}

abbrev caddy : Container
caddy = record (healthy "caddy") {
  publishers =
      record { published_port = some 80; target_port = 80 }
      ∷ record { published_port = some 443; target_port = 443 }
      ∷ [];
  health = none;
}

abbrev site : Site
site = record {
  unicode = ascii;
  fetch = λ n sent. reply n;
  loads = λ body. if body == "{}" then some state else none;
  dumps_login = λ username password. "";
  repr = λ v. "";
  probe = exited 0 "200 ";
  listening = λ port. false;
  compose_ps = containers (
      healthy "postgres"
      ∷ healthy "redis"
      ∷ healthy "api"
      ∷ healthy "worker"
      ∷ healthy "web"
      ∷ caddy
      ∷ []);
}

succeeds :
    exit_code (run_checks site "http://localhost" "https://localhost" "" "" (5432 ∷ 8000 ∷ [])) ≡ 0
unfolding run_checks exit_code verdict then_check contains lower_bytes after_prefix lower strip
    lstrip rstrip is_space get
succeeds = refl

exit_code-Deployed_example : Deployed site "http://localhost" "https://localhost" (5432 ∷ 8000 ∷ [])
exit_code-Deployed_example =
    exit_code-Deployed site "http://localhost" "https://localhost" "" "" (5432 ∷ 8000 ∷ []) succeeds
