-- ===== src/Logging/Tests.antt =====
-- Logging in a process that starts.
use ketabdan_ms.Prelude.{refl, true, false, [], ◌∷◌, nat_eq, string_eq}
use ketabdan_ms.Logging.{default_level, name, Loggers, configure_all}
use ketabdan_ms.Logging.Configured.{IsConfigured, configure_logging-IsConfigured}
use ketabdan_ms.Samples.{ascii}

-- The handlers of another library are there.
abbrev started : Loggers
started = record {
  root_handlers = false ∷ [];
  root_level = 30;
  access_handlers = false ∷ [];
  access_propagates = true;
  arq_worker_level = 0;
}

configure_logging-IsConfigured_example :
    IsConfigured (configure_all ascii (name "IFNO" ∷ default_level ∷ []) started)
configure_logging-IsConfigured_example =
    configure_logging-IsConfigured ascii (name "IFNO") (default_level ∷ []) started refl
