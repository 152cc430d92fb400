-- ===== src/Logging/Configured.antt =====
-- What every sequence of calls leaves.
use ketabdan_ms.Prelude.{
  ℕ, String, ◌≡◌, refl, ap, ◌∙◌, Bool, true, false, List, [], ◌∷◌, ◌++◌, arith, nat_eq, string_eq,
  Result, ok, err, length, keep,
}
use ketabdan_ms.Prelude.Text.{Unicode}
use ketabdan_ms.Logging.{
  Level, Loggers, warning, set_level, app_log_handlers, first_install, installed, resolve_level,
  configure_logging, configure_all,
}

-- One handler of ours, no access log, and no arguments of jobs in the log
pub record IsConfigured (l : Loggers) : Type 0 where
  pub one_handler : length (app_log_handlers l) ≡ 1
  pub no_access_log : l.access_handlers ≡ []
  pub access_quiet : l.access_propagates ≡ false
  pub arq_pinned : l.arq_worker_level ≡ warning

keep-append : (xs ys : List Bool) → keep (λ h. h) (xs ++ ys) ≡ keep (λ h. h) xs ++ keep (λ h. h) ys
keep-append [] ys = refl
keep-append (true ∷ xs) ys = ap (λ l. true ∷ l) (keep-append xs ys)
keep-append (false ∷ xs) ys = keep-append xs ys

first-IsConfigured : (l : Loggers) → app_log_handlers l ≡ [] → IsConfigured (first_install l)
first-IsConfigured l h = record {
  one_handler =
      ap length (keep-append l.root_handlers (true ∷ []) ∙ ap (λ xs. xs ++ (true ∷ [])) h)
      ∙ omega arith;
  no_access_log = refl;
  access_quiet = refl;
  arq_pinned = refl;
}

set_level-IsConfigured :
    (x : Result String ℕ) (l : Loggers) → IsConfigured l → IsConfigured (set_level x l).1
set_level-IsConfigured (ok level) l v = record {
  one_handler = v.one_handler;
  no_access_log = v.no_access_log;
  access_quiet = v.access_quiet;
  arq_pinned = v.arq_pinned;
}
set_level-IsConfigured (err e) l v = v

installed-IsConfigured :
    (hs : List Bool) (l : Loggers)
    → app_log_handlers l ≡ hs
    → length hs ≡ 1
    → IsConfigured l
    → IsConfigured (installed hs l)
installed-IsConfigured [] l e one v = absurd (omega (arith, one))
installed-IsConfigured (h ∷ hs) l e one v = v

module _ (u : Unicode) where
  configure_logging-first :
      (level : Level) (l : Loggers)
      → app_log_handlers l ≡ []
      → IsConfigured (configure_logging u level l).1
  unfolding configure_logging
  configure_logging-first level l h =
      set_level-IsConfigured (resolve_level u level) (installed (app_log_handlers l) l)
        (rw h (first-IsConfigured l h))

  configure_all-IsConfigured :
      (levels : List Level) (l : Loggers) → IsConfigured l → IsConfigured (configure_all u levels l)
  unfolding configure_all configure_logging
  configure_all-IsConfigured [] l v = v
  configure_all-IsConfigured (level ∷ levels) l v =
      configure_all-IsConfigured levels (configure_logging u level l).1 (
        set_level-IsConfigured (resolve_level u level) (installed (app_log_handlers l) l)
          (installed-IsConfigured (app_log_handlers l) l refl v.one_handler v))

  -- From a process whose root logger has no handler of ours, one call or more, with whatever levels,
  -- also such that raise, leave exactly one handler of ours, no access log, and arq's job lines off.
  pub configure_logging-IsConfigured :
      (level : Level) (levels : List Level) (l : Loggers)
      → app_log_handlers l ≡ []
      → IsConfigured (configure_all u (level ∷ levels) l)
  unfolding configure_all
  configure_logging-IsConfigured level levels l h =
      configure_all-IsConfigured levels (configure_logging u level l).1
        (configure_logging-first level l h)
