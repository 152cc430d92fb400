-- ===== src/Logging.antt =====
-- apps/api/app/core/logging.py: the level of the root logger and the one handler on it. A handler is
-- the mark that it was installed here; its formatter and the log lines are left out.
pub mod Configured
pub mod Levels
mod Tests
use ketabdan_ms.Prelude.{
  ℕ, zero, suc, ◌+◌, ◌-◌, ◌*◌, ◌/◌, ◌%◌, ◌^◌, ◌≤◌, ◌<◌, String, ◌≡◌, refl, sym, ap, ◌∙◌, ◌≢◌, ◌↔◌,
  ◌⊎◌, inl, inr, Bool, true, false, not, ◌&&◌, ◌||◌, Option, none, some, List, [], ◌∷◌, ◌++◌, map,
  arith, eq_iff, ltb, leb, eqb, if◌then◌else◌, Bool-cases, Option-cases, ltb→lt, lt→ltb, leb→le, Eq,
  ◌==◌, nat_eq, string_eq, ==_refl, ==→≡, Result, ok, err, ◌>>=◌, >>=-eq-ok, length, length-append,
  find, keep, any, All, Any, elem, or_false,
}
use ketabdan_ms.Prelude.Text.{Unicode, upper, strip}

pub data Level : Type 0 where
  default_level : Level
  number : ℕ → Level
  name : String → Level

pub record Loggers : Type 0 where
  pub root_handlers : List Bool
  pub root_level : ℕ
  pub access_handlers : List Bool
  pub access_propagates : Bool
  pub arq_worker_level : ℕ

abbrev pub info : ℕ
info = 20

abbrev pub warning : ℕ
warning = 30

-- `getattr(logging, normalized)`, where the name is one of `VALID_LOG_LEVELS`
abbrev pub level_of : String → Result String ℕ
level_of normalized =
    if normalized == "DEBUG"
    then ok 10
    else (if normalized == "INFO"
        then ok info
        else (if normalized == "WARNING"
            then ok warning
            else (if normalized == "ERROR"
                then ok 40
                else (if normalized == "CRITICAL" then ok 50 else err "ValueError"))))

-- `setLevel` on a level, or the `ValueError`
abbrev pub set_level : Result String ℕ → Loggers → Result String (Unit {0}) × Loggers
set_level (ok level) l = (ok tt, record l { root_level = level })
set_level (err e) l = (err e, l)

abbrev pub install_root_handler : Loggers → Loggers
install_root_handler l = record l { root_handlers = l.root_handlers ++ (true ∷ []) }

abbrev pub app_log_handlers : Loggers → List Bool
app_log_handlers l = keep (λ h. h) l.root_handlers

abbrev pub first_install : Loggers → Loggers
first_install l = record (install_root_handler l) {
  access_handlers = [];
  access_propagates = false;
  arq_worker_level = warning;
}

abbrev pub installed : List Bool → Loggers → Loggers
installed [] l = first_install l
installed (h ∷ hs) l = l

module _ (u : Unicode) where
  unfoldable pub resolve_level : Level → Result String ℕ
  resolve_level default_level = ok info
  resolve_level (number level) = ok level
  resolve_level (name level) = level_of (upper u (strip level))

  -- The handler is there even where the level raises.
  unfoldable pub configure_logging : Level → Loggers → Result String (Unit {0}) × Loggers
  unfolding resolve_level
  configure_logging level l = set_level (resolve_level level) (installed (app_log_handlers l) l)

  unfoldable pub configure_all : List Level → Loggers → Loggers
  unfolding configure_logging
  configure_all [] l = l
  configure_all (level ∷ levels) l = configure_all levels (configure_logging level l).1
