-- ===== src/Config.antt =====
-- apps/api/app/core/config.py: the settings, their validation, and the parsed CORS origins.
-- The values are typed already: reading the environment and converting its texts is pydantic's.
pub mod Url
pub mod Policy
pub mod Tests
use ketabdan_ms.Prelude.{
  ℕ, zero, suc, ◌+◌, ◌-◌, ◌*◌, ◌/◌, ◌%◌, ◌^◌, ◌≤◌, ◌<◌, String, ◌≡◌, refl, sym, ap, ◌∙◌, ◌≢◌, ◌↔◌,
  ◌⊎◌, inl, inr, Bool, true, false, not, ◌&&◌, ◌||◌, Option, none, some, List, [], ◌∷◌, ◌++◌, map,
  arith, eq_iff, ltb, leb, eqb, if◌then◌else◌, Bool-cases, Option-cases, ltb→lt, lt→ltb, leb→le, Eq,
  ◌==◌, nat_eq, string_eq, ==_refl, ==→≡, Result, ok, err, ◌>>=◌, >>=-eq-ok, length, length-append,
  find, keep, any, All, Any, elem,
}
use Prim.Native.String.{count}
use ketabdan_ms.Prelude.Text.{Unicode, strip, is_blank, lower, upper, split}
use ketabdan_ms.Config.Url.{UrlChecks, UrlParts, urlsplit}

pub data Environment : Type 0 where
  development test production : Environment

abbrev pub auth_secret_placeholder : String
auth_secret_placeholder = "change-me-insecure-dev-placeholder"

abbrev pub auth_secret_min_length : ℕ
auth_secret_min_length = 32

-- The fields that the code reads. `redis_url_set` is `"redis_url" in model_fields_set`.
pub record Settings : Type 0 where
  pub app_env : Environment
  pub database_url : Option String
  pub cors_allow_origins : String
  pub auth_secret_key : String
  pub auth_algorithm : String
  pub access_token_expire_minutes : ℕ
  pub auth_allow_insecure_dev_secret : Bool
  pub log_level : String
  pub telegram_bot_token : Option String
  pub bale_bot_token : Option String
  pub notification_timeout_seconds : ℕ
  pub redis_url : String
  pub redis_url_set : Bool
  pub notification_max_attempts : ℕ
  pub notification_retry_base_delay_seconds : ℕ
  pub notification_retry_max_delay_seconds : ℕ
  pub worker_metrics_port : ℕ

-- The settings before validation: the environment's name is any text. `settings` has the rest.
pub record RawSettings : Type 0 where
  pub app_env : String
  pub settings : Settings

-- A pydantic ValidationError with the (first) offending field, or a ConfigurationError.
pub data ConfigError : Type 0 where
  invalid_field : String → ConfigError
  configuration_error : String → ConfigError

-- What the interpreter and the libraries decide: Unicode case, `make_url`, and the host checks of
-- `urlsplit`.
pub record Platform : Type 0 where
  pub unicode : Unicode
  pub make_url_accepts : String → Bool
  pub url_checks : UrlChecks

unfoldable pub cors_origins_list : String → List String
cors_origins_list origins = map strip (keep (λ o. not (is_blank o)) (split b',' origins))

abbrev pub valid_levels : List String
valid_levels = "DEBUG" ∷ "INFO" ∷ "WARNING" ∷ "ERROR" ∷ "CRITICAL" ∷ []

abbrev require : Bool → ConfigError → Settings → Result ConfigError Settings
require true e s = ok s
require false e s = err e

-- The bounds of the numeric fields: `gt=0`, `ge=1`, `le=65535`.
unfoldable pub numbers_in_range : Settings → Result ConfigError Settings
numbers_in_range s =
    require (ltb 0 s.notification_timeout_seconds) (invalid_field "notification_timeout_seconds") s
    >>= require (leb 1 s.notification_max_attempts) (invalid_field "notification_max_attempts")
    >>= require (ltb 0 s.notification_retry_base_delay_seconds)
        (invalid_field "notification_retry_base_delay_seconds")
    >>= require (ltb 0 s.notification_retry_max_delay_seconds)
        (invalid_field "notification_retry_max_delay_seconds")
    >>= require (leb s.worker_metrics_port 65535) (invalid_field "worker_metrics_port")

redis_url_ok : UrlParts → Bool
redis_url_ok parts =
    elem parts.scheme ("redis" ∷ "rediss" ∷ "unix" ∷ [])
    && (not (parts.netloc == "") || not (parts.path == ""))

unfoldable pub cors_origin_ok : UrlParts → Bool
cors_origin_ok parts = elem parts.scheme ("http" ∷ "https" ∷ []) && not (parts.netloc == "")

unfoldable pub retry_delays_make_sense : Settings → Result ConfigError Settings
retry_delays_make_sense s =
    if ltb s.notification_retry_max_delay_seconds s.notification_retry_base_delay_seconds
    then err (configuration_error "notification_retry_max_delay_seconds")
    else ok s

is_production : Environment → Bool
is_production production = true
is_production _ = false

abbrev is_none : Option String → Bool
is_none none = true
is_none (some v) = false

unfoldable pub production_requirements : Settings → Result ConfigError Settings
unfolding is_production
production_requirements s =
    if not (is_production s.app_env)
    then ok s
    else if s.auth_allow_insecure_dev_secret
    then err (configuration_error "AUTH_ALLOW_INSECURE_DEV_SECRET")
    else if s.auth_secret_key == auth_secret_placeholder
    then err (configuration_error "AUTH_SECRET_KEY")
    else if ltb (count s.auth_secret_key) auth_secret_min_length
    then err (configuration_error "AUTH_SECRET_KEY")
    else if is_none s.database_url
    then err (configuration_error "DATABASE_URL")
    else if not s.redis_url_set
    then err (configuration_error "REDIS_URL")
    else if elem "*" (cors_origins_list s.cors_allow_origins)
    then err (configuration_error "CORS_ALLOW_ORIGINS")
    else ok s

module _ (os : Platform) where
  environment_of : String → Option Environment
  environment_of value =
      let name = lower os.unicode (strip value) in
      if name == "development"
      then some development
      else if name == "test"
      then some test
      else if name == "production"
      then some production
      else none

  -- `_app_env_case_insensitive`, and the literal type behind it
  unfoldable pub check_app_env : String → Settings → Result ConfigError Settings
  unfolding environment_of
  check_app_env value s = elim (environment_of value) [
    | none ↦ err (invalid_field "app_env")
    | some e ↦ ok (record s { app_env = e })
  ]

  unfoldable pub log_level_is_standard : Settings → Result ConfigError Settings
  log_level_is_standard s =
      let normalized = upper os.unicode (strip s.log_level) in
      if elem normalized valid_levels
      then ok (record s { log_level = normalized })
      else err (invalid_field "log_level")

  -- The loop over the origins; a ValueError of `urlsplit` becomes a ValidationError.
  unfoldable pub check_origins : List String → Settings → Result ConfigError Settings
  check_origins [] s = ok s
  check_origins (o ∷ os') s =
      let rest = check_origins os' s in
      if o == "*" then rest else elim (urlsplit os.url_checks o) [
        | none ↦ err (invalid_field "cors_allow_origins")
        | some parts ↦
            if cors_origin_ok parts then rest else err (configuration_error "CORS_ALLOW_ORIGINS")
      ]

  abbrev database_url_ok : Option String → Bool
  database_url_ok none = true
  database_url_ok (some url) = os.make_url_accepts url

  unfoldable pub urls_and_origins_well_formed : Settings → Result ConfigError Settings
  unfolding redis_url_ok cors_origin_ok check_origins
  urls_and_origins_well_formed s =
      if database_url_ok s.database_url
      then elim (urlsplit os.url_checks s.redis_url) [
        | none ↦ err (invalid_field "redis_url")
        | some parts ↦
            if redis_url_ok parts
            then check_origins (cors_origins_list s.cors_allow_origins) s
            else err (configuration_error "REDIS_URL")
      ]
      else err (configuration_error "DATABASE_URL")

  -- `Settings()`: the field validators, then the model validators in the order of the class.
  unfoldable pub load_settings : RawSettings → Result ConfigError Settings
  load_settings raw =
      check_app_env raw.app_env raw.settings
      >>= log_level_is_standard
      >>= numbers_in_range
      >>= urls_and_origins_well_formed
      >>= retry_delays_make_sense
      >>= production_requirements
