-- ===== src/Database/Checks.antt =====
-- The two checks of the database agree, and production has a database to check.
use ketabdan_ms.Prelude.{
  ℕ, ◌≤◌, String, ◌≡◌, refl, sym, ap, ◌∙◌, ◌≢◌, inl, inr, Bool, true, false, ◌&&◌, Option, none,
  some, arith, eqb, Bool-cases, Option-cases, ◌==◌, nat_eq, string_eq, ==→≡, Result, ok, err,
}
use mathlib.Core.Bool.{true≢false}
use ketabdan_ms.Config.{
  Settings, RawSettings, Platform, production, load_settings, urls_and_origins_well_formed,
}
use ketabdan_ms.Config.Policy.{load_settings-IsSecure, load_settings-WellFormed}
use ketabdan_ms.Http.{check_ok}
use ketabdan_ms.Database.{
  Driver, not_configured, Connections, Call, configured_url, get_engine, main_exit, connect_exit,
  main, ping, pinged, answer_of, check_database, migration_url, made_engine, create_for,
  cached_engine,
}

module _ (d : Driver) (s : Settings) where
  exits :
      (e : ℕ) (in_time : Bool) (a : Result String (Unit {0}))
      → ((answer_of d s in_time (pinged d s a) == check_ok)
          ≡ (in_time && eqb (connect_exit d s a) 0))
        × (connect_exit d s a ≤ 1)
  exits e true (ok t) = (refl, omega arith)
  exits e true (err name) = (refl, omega arith)
  exits e false (ok t) = (refl, omega arith)
  exits e false (err name) = (refl, omega arith)

  call-exits :
      (in_time : Bool) (r : Call ℕ)
      → ((answer_of d s in_time (ping d s r).0 == check_ok)
          ≡ (in_time && eqb (main_exit d s r).0 0))
        × ((main_exit d s r).0 ≤ 1)
        × ((main_exit d s r).1 ≡ (ping d s r).1)
  call-exits in_time (ok e, c) =
      let (same, small) = exits e in_time (d.select_1 e) in (same, small, refl)
  call-exits true (err x, c) = (refl, omega arith, refl)
  call-exits false (err x, c) = (refl, omega arith, refl)

  -- Readiness finds the database fit exactly when the ping is in time and the command-line check
  -- would exit with 0, which else exits with 1; both leave the same caches.
  main-check_database :
      (in_time : Bool) (c : Connections)
      → (((check_database d s in_time c).0 == check_ok) ≡ (in_time && eqb (main d s c).0 0))
        × ((main d s c).0 ≤ 1)
        × ((main d s c).1 ≡ (check_database d s in_time c).1)
  unfolding main check_database
  main-check_database in_time c = call-exits in_time (get_engine d s c)

url-accepted :
    (os : Platform) (s : Settings) (url : String)
    → s.database_url ≡ some url
    → urls_and_origins_well_formed os s ≡ ok s
    → os.make_url_accepts url ≡ true
unfolding urls_and_origins_well_formed
url-accepted os s url e h = ground arith

configured :
    (os : Platform) (s : Settings)
    → os.make_url_accepts "" ≡ false
    → s.database_url ≢ none
    → urls_and_origins_well_formed os s ≡ ok s
    → (url : String) × (s.database_url ≡ some url) × (configured_url s.database_url ≡ some url)
unfolding urls_and_origins_well_formed
configured os s unreadable there h = elim (Option-cases s.database_url) [
  | inl e ↦ absurd (there e)
  | inr (url, e) ↦ elim (Bool-cases (url == "")) [
    | inl e' ↦ absurd (
        true≢false
          (sym (url-accepted os s url e h) ∙ ap os.make_url_accepts (==→≡ url "" e') ∙ unreadable))
    | inr e' ↦ (url, e, rw (e, e') refl)
  ]
]

module _ (d : Driver) (s : Settings) (c : Connections) where
  made-named : (a : Result String ℕ) → (made_engine d s c a).0 ≢ err not_configured
  made-named (ok e) h = cc
  made-named (err name) h = cc

  engine-configured :
      (o : Option ℕ) (url : String)
      → configured_url s.database_url ≡ some url
      → (cached_engine d s c o).0 ≢ err not_configured
  engine-configured (some e) url h h' = cc
  engine-configured none url h h' =
      made-named (d.create_engine url) (sym (ap (λ u. (create_for d s c u).0) h) ∙ h')

-- Settings for production that load have a database URL, which migrations use, and no call of
-- `get_engine` raises for want of one, if no SQLAlchemy URL is empty.
production-configured :
    (os : Platform) (d : Driver) (raw : RawSettings) (s : Settings)
    → os.make_url_accepts "" ≡ false
    → load_settings os raw ≡ ok s
    → s.app_env ≡ production
    → (url : String) × (s.database_url ≡ some url)
      × (migration_url s ≡ ok url)
      × ((c : Connections) → (get_engine d s c).0 ≢ err not_configured)
unfolding migration_url get_engine
production-configured os d raw s unreadable h live =
    let secure = load_settings-IsSecure os raw s h live in
    let (url, e, e') =
      configured os s unreadable secure.has_database (load_settings-WellFormed os raw s h) in
    (url, e, rw (e', migration_url) refl, λ c h'. engine-configured d s c c.engine url e' h')
