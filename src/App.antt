-- ===== src/App.antt =====
-- apps/api/app/main.py: the application of the settings. `app` is its middleware, the outermost
-- first, and its routers by their modules; titles and descriptions are left out.
pub mod Origins
mod Tests
use ketabdan_ms.Prelude.{
  ℕ, zero, suc, ◌+◌, ◌-◌, ◌*◌, ◌/◌, ◌%◌, ◌^◌, ◌≤◌, ◌<◌, String, ◌≡◌, refl, sym, ap, ◌∙◌, ◌≢◌, ◌↔◌,
  ◌⊎◌, inl, inr, Bool, true, false, not, ◌&&◌, ◌||◌, Option, none, some, List, [], ◌∷◌, ◌++◌, map,
  arith, eq_iff, ltb, leb, eqb, if◌then◌else◌, Bool-cases, Option-cases, ltb→lt, lt→ltb, leb→le, Eq,
  ◌==◌, nat_eq, string_eq, ==_refl, ==→≡, Result, ok, err, ◌>>=◌, >>=-eq-ok, length, length-append,
  find, keep, any, All, Any, elem, or_false, concat_map,
}
use ketabdan_ms.Prelude.Text.{Unicode}
use ketabdan_ms.Config.{Settings, cors_origins_list}
use ketabdan_ms.Logging.{Level, Loggers, configure_logging}

pub record CorsOptions : Type 0 where
  pub allow_origins : List String
  pub allow_credentials : Bool
  pub allow_methods : List String
  pub allow_headers : List String

pub data Middleware : Type 0 where
  request_logging : Middleware
  cors : CorsOptions → Middleware

pub record App : Type 0 where
  pub middleware : List Middleware
  pub routers : List String

-- `app.add_middleware`: the one that is added last is the outermost.
abbrev pub add_middleware : Middleware → App → App
add_middleware m app = record app { middleware = m ∷ app.middleware }

abbrev pub include_router : String → App → App
include_router router app = record app { routers = app.routers ++ router ∷ [] }

abbrev pub cors_options : List String → CorsOptions
cors_options origins = record {
  allow_origins = origins;
  allow_credentials = false;
  allow_methods = "GET" ∷ "POST" ∷ "PUT" ∷ "PATCH" ∷ "DELETE" ∷ "OPTIONS" ∷ [];
  allow_headers = "Authorization" ∷ "Content-Type" ∷ "Accept" ∷ [];
}

-- `if _settings.cors_origins_list:`
abbrev pub with_cors : List String → App → App
with_cors [] app = app
with_cors (o ∷ origins) app = add_middleware (cors (cors_options (o ∷ origins))) app

abbrev pub with_routers : App → App
with_routers app = include_router "metrics" (
    include_router "health" (
      include_router "event_assignments" (
        include_router "events"
          (include_router "persons" (include_router "roles" (include_router "auth" app))))))

abbrev pub build_app : Settings → App
build_app s = with_routers (
    add_middleware request_logging (
      with_cors (cors_origins_list s.cors_allow_origins)
        (record { middleware = []; routers = [] })))

abbrev pub then_build : Settings → Result String (Unit {0}) × Loggers → Result String App × Loggers
then_build s (ok t, l) = (ok (build_app s), l)
then_build s (err e, l) = (err e, l)

-- The module's statements: logging is configured first.
unfoldable pub create_app : Unicode → Settings → Loggers → Result String App × Loggers
create_app u s l = then_build s (configure_logging u (Level.name s.log_level) l)

abbrev pub allowed_by : Middleware → List String
allowed_by request_logging = []
allowed_by (cors options) = options.allow_origins

-- The origins that some middleware lets through.
abbrev pub allowed_origins : App → List String
allowed_origins app = concat_map allowed_by app.middleware

abbrev pub allows_credentials : Middleware → Bool
allows_credentials request_logging = false
allows_credentials (cors options) = options.allow_credentials
