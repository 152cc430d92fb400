-- ===== src/Database.antt =====
-- apps/api/app/db/session.py and db/check.py, the check of the database in
-- apps/api/app/api/health.py, and how apps/api/alembic/env.py reaches the database.
pub mod Engine
pub mod Overlap
pub mod Checks
mod Tests
use ketabdan_ms.Prelude.{
  ℕ, zero, suc, ◌+◌, ◌-◌, ◌*◌, ◌/◌, ◌%◌, ◌^◌, ◌≤◌, ◌<◌, String, ◌≡◌, refl, sym, ap, ◌∙◌, ◌≢◌, ◌↔◌,
  ◌⊎◌, inl, inr, Bool, true, false, not, ◌&&◌, ◌||◌, Option, none, some, List, [], ◌∷◌, ◌++◌, map,
  arith, eq_iff, ltb, leb, eqb, if◌then◌else◌, Bool-cases, Option-cases, ltb→lt, lt→ltb, leb→le, Eq,
  ◌==◌, nat_eq, string_eq, ==_refl, ==→≡, Result, ok, err, ◌>>=◌, >>=-eq-ok, length, length-append,
  find, keep, any, All, Any, elem, or_false, concat_map,
}
use ketabdan_ms.Config.{Settings}
use ketabdan_ms.Http.{check_ok, check_unavailable}

-- What the code asks of SQLAlchemy: an engine for a URL, and on it a connection with `SELECT 1`.
-- Each may raise, which is given by the exception's class. An engine is known by a number.
pub record Driver : Type 0 where
  pub create_engine : String → Result String ℕ
  pub select_1 : ℕ → Result String (Unit {0})

pub data EngineError : Type 0 where
  not_configured : EngineError
  raised : String → EngineError

-- The process's caches (`lru_cache`), the engines that it has made, and its open sessions, each with
-- the engine it is bound to. The factory is known by its engine.
pub record Connections : Type 0 where
  pub engine : Option ℕ
  pub session_factory : Option ℕ
  pub created : List ℕ
  pub sessions : List ℕ

abbrev pub new_process : Connections
new_process = record { engine = none; session_factory = none; created = []; sessions = [] }

abbrev pub Call : Type 0 → Type 0
Call A = Result EngineError A × Connections

-- `not database_url`
abbrev pub configured_url : Option String → Option String
configured_url none = none
configured_url (some url) = if url == "" then none else some url

-- `lru_cache` is as for calls that do not overlap: a call that misses has stored its value before the next
-- one looks. Overlap has calls in several threads.
module _ (driver : Driver) (s : Settings) where
  -- An exception is not cached.
  abbrev pub made_engine : Connections → Result String ℕ → Call ℕ
  made_engine c (ok e) = (ok e, record c { engine = some e; created = e ∷ c.created })
  made_engine c (err name) = (err (raised name), c)

  abbrev pub create_for : Connections → Option String → Call ℕ
  create_for c none = (err not_configured, c)
  create_for c (some url) = made_engine c (driver.create_engine url)

  abbrev pub cached_engine : Connections → Option ℕ → Call ℕ
  cached_engine c (some e) = (ok e, c)
  cached_engine c none = create_for c (configured_url s.database_url)

  unfoldable pub get_engine : Connections → Call ℕ
  get_engine c = cached_engine c c.engine

  abbrev pub bound_factory : Call ℕ → Call ℕ
  bound_factory (ok e, c) = (ok e, record c { session_factory = some e })
  bound_factory (err x, c) = (err x, c)

  abbrev pub cached_factory : Connections → Option ℕ → Call ℕ
  cached_factory c (some f) = (ok f, c)
  cached_factory c none = bound_factory (get_engine c)

  unfoldable pub get_session_factory : Connections → Call ℕ
  unfolding get_engine
  get_session_factory c = cached_factory c c.session_factory

  -- The session is open while the handler runs, and is closed whether it returns or raises.
  abbrev pub close_session : Connections → Connections
  close_session c = elim c.sessions [ [] ↦ c | f ∷ sessions ↦ record c { sessions = sessions } ]

  abbrev pub close_after : {A : Type 0} → Connections → Result String A → Call A
  close_after c (ok a) = (ok a, close_session c)
  close_after c (err name) = (err (raised name), close_session c)

  abbrev pub in_session : {A : Type 0} → (ℕ → Result String A) → Call ℕ → Call A
  in_session handler (err x, c) = (err x, c)
  in_session handler (ok f, c) = close_after (record c { sessions = f ∷ c.sessions }) (handler f)

  unfoldable pub get_db : {A : Type 0} → (ℕ → Result String A) → Connections → Call A
  unfolding get_session_factory
  get_db handler c = in_session handler (get_session_factory c)

  -- `python -m app.db.check`: the exit code. Any exception of `create_engine` itself leaves `main`.
  abbrev pub connect_exit : Result String (Unit {0}) → ℕ
  connect_exit (ok t) = 0
  connect_exit (err name) = 1

  abbrev pub main_exit : Call ℕ → ℕ × Connections
  main_exit (ok e, c) = (connect_exit (driver.select_1 e), c)
  main_exit (err x, c) = (1, c)

  unfoldable pub main : Connections → ℕ × Connections
  unfolding get_engine
  main c = main_exit (get_engine c)

  -- `_check_database`: `in_time` is whether the ping ends within three seconds.
  abbrev pub pinged : Result String (Unit {0}) → Result EngineError (Unit {0})
  pinged (ok t) = ok t
  pinged (err name) = err (raised name)

  abbrev pub ping : Call ℕ → Result EngineError (Unit {0}) × Connections
  ping (ok e, c) = (pinged (driver.select_1 e), c)
  ping (err x, c) = (err x, c)

  abbrev pub answer_of : Bool → Result EngineError (Unit {0}) → String
  answer_of true (ok t) = check_ok
  answer_of true (err x) = check_unavailable
  answer_of false r = check_unavailable

  unfoldable pub check_database : Bool → Connections → String × Connections
  unfolding get_engine
  check_database in_time c = let (r, c') = ping (get_engine c) in (answer_of in_time r, c')

-- The URL that `env.py` gives to alembic, or its RuntimeError.
unfoldable pub migration_url : Settings → Result EngineError String
migration_url s = elim (configured_url s.database_url) [
  | none ↦ err not_configured
  | some url ↦ ok url
]
