-- ===== src/App/Origins.antt =====
-- The application of settings that load: it is built, and the browsers that it lets through.
use ketabdan_ms.Prelude.{
  String, ◌≡◌, refl, sym, ap, ◌≢◌, ◌⊎◌, inl, inr, true, false, some, List, [], ◌∷◌, arith, eq_iff,
  Bool-cases, Option-cases, ◌==◌, nat_eq, string_eq, ==→≡, ok, any, All, elem,
}
use mathlib.Core.Path.{subst}
use mathlib.Core.List.{append-nil}
use ketabdan_ms.Logging.Levels.{level-IsKnown}
use ketabdan_ms.Prelude.Text.{Unicode}
use ketabdan_ms.Config.{
  Settings, RawSettings, Platform, production, cors_origins_list, load_settings,
  urls_and_origins_well_formed, check_origins, cors_origin_ok,
}
use ketabdan_ms.Config.Url.{UrlParts, urlsplit}
use ketabdan_ms.Config.Policy.{
  load_settings-IsSecure, load_settings-InRange, load_settings-WellFormed,
}
use ketabdan_ms.Logging.{Loggers, set_level, installed, app_log_handlers, configure_logging}
use ketabdan_ms.App.{
  App, request_logging, add_middleware, with_cors, build_app, create_app, then_build,
  allowed_origins, allows_credentials,
}

-- An origin with the scheme http or https and a host.
pub record IsWebOrigin (os : Platform) (origin : String) : Type 0 where
  pub parts : UrlParts
  pub splits : urlsplit os.url_checks origin ≡ some parts
  pub scheme : (parts.scheme ≡ "http") ⊎ (parts.scheme ≡ "https")
  pub host : parts.netloc ≢ ""

accepted-scheme :
    (parts : UrlParts)
    → cors_origin_ok parts ≡ true
    → ((parts.scheme ≡ "http") ⊎ (parts.scheme ≡ "https")) × (parts.netloc ≢ "")
unfolding cors_origin_ok
accepted-scheme parts h = (
  elim (Bool-cases ("http" == parts.scheme)) [
    | inl e ↦ inl (sym (==→≡ "http" parts.scheme e))
    | inr ne ↦ inr (sym (==→≡ "https" parts.scheme (ground arith)))
  ],
  λ e. ground (arith, eq_iff parts.netloc ""),
)

-- What the check of an accepted origin found, and that of the others.
checked-origin :
    (os : Platform) (s : Settings) (o : String) (origins : List String)
    → check_origins os (o ∷ origins) s ≡ ok s
    → (o == "*") ≡ false
    → IsWebOrigin os o × (check_origins os origins s ≡ ok s)
unfolding check_origins
checked-origin os s o origins h ne = elim (Option-cases (urlsplit os.url_checks o)) [
  | inl e ↦ absurd (ground arith)
  | inr (parts, e) ↦ elim (Bool-cases (cors_origin_ok parts)) [
    | inl fine ↦
        (let (scheme, host) = accepted-scheme parts fine in
          (record { parts = parts; splits = e; scheme = scheme; host = host }, ground arith))
    | inr bad ↦ absurd (ground arith)
  ]
]

checked :
    (os : Platform) (s : Settings) (origins : List String)
    → check_origins os origins s ≡ ok s
    → elem "*" origins ≡ false
    → All (IsWebOrigin os) origins
checked os s [] h h' = tt
checked os s (o ∷ origins) h h' =
    let (here, rest) = checked-origin os s o origins h (ground arith) in
    (here, checked os s origins rest (ground arith))

origins-checked :
    (os : Platform) (s : Settings)
    → urls_and_origins_well_formed os s ≡ ok s
    → check_origins os (cors_origins_list s.cors_allow_origins) s ≡ ok s
unfolding urls_and_origins_well_formed
origins-checked os s h = ground arith

-- The middleware of the application for a list of origins
allowed-build :
    (s : Settings) → allowed_origins (build_app s) ≡ cors_origins_list s.cors_allow_origins
allowed-build s = go (cors_origins_list s.cors_allow_origins)
  where
    go :
        (origins : List String)
        → allowed_origins (
            add_middleware request_logging
              (with_cors origins (record { middleware = []; routers = [] })))
          ≡ origins
    go [] = refl
    go (o ∷ origins) = append-nil (o ∷ origins)

no-credentials : (s : Settings) → any allows_credentials (build_app s).middleware ≡ false
no-credentials s = go (cors_origins_list s.cors_allow_origins)
  where
    go :
        (origins : List String)
        → any allows_credentials
            (add_middleware request_logging
              (with_cors origins (record { middleware = []; routers = [] }))).middleware
          ≡ false
    go [] = refl
    go (o ∷ origins) = refl

-- With production settings that load, the application is built without an error, the middleware
-- lets through exactly the configured origins, each of them with the scheme http or https and a
-- host, and never allows credentials.
pub create_app-production :
    (os : Platform) (u : Unicode) (raw : RawSettings) (s : Settings) (l : Loggers)
    → load_settings os raw ≡ ok s
    → s.app_env ≡ production
    → (app : App) × ((create_app u s l).0 ≡ ok app)
      × (allowed_origins app ≡ cors_origins_list s.cors_allow_origins)
      × All (IsWebOrigin os) (allowed_origins app)
      × (any allows_credentials app.middleware ≡ false)
unfolding create_app configure_logging
create_app-production os u raw s l h live =
    let secure = load_settings-IsSecure os raw s h live in
    let checks =
      checked os s (cors_origins_list s.cors_allow_origins)
        (origins-checked os s (load_settings-WellFormed os raw s h)) secure.no_wildcard in
    let (n, e) = level-IsKnown u s.log_level (load_settings-InRange os raw s h).level_known in
    (
      build_app s,
      ap (λ r. (then_build s (set_level r (installed (app_log_handlers l) l))).0) e,
      allowed-build s,
      subst (All (IsWebOrigin os)) (sym (allowed-build s)) checks,
      no-credentials s,
    )
