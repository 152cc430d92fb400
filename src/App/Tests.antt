-- ===== src/App/Tests.antt =====
-- The application of the sample settings.
use ketabdan_ms.Prelude.{◌≡◌, refl, true, false, [], ◌∷◌, nat_eq, string_eq, ok, any, All}
use ketabdan_ms.Config.{cors_origins_list}
use ketabdan_ms.Config.Tests.{live_settings-load}
use ketabdan_ms.Prelude.Text.{split, is_blank, strip, lstrip, rstrip}
use ketabdan_ms.Logging.{Loggers}
use ketabdan_ms.Samples.{ascii, platform, raw_settings, live_settings}
use ketabdan_ms.App.{
  App, build_app, create_app, request_logging, allowed_origins, allows_credentials,
}
use ketabdan_ms.App.Origins.{IsWebOrigin, create_app-production}

abbrev fresh : Loggers
fresh = record {
  root_handlers = [];
  root_level = 30;
  access_handlers = [];
  access_propagates = true;
  arq_worker_level = 0;
}

create_app-production_example :
    (app : App) × ((create_app ascii live_settings fresh).0 ≡ ok app)
    × (allowed_origins app ≡ cors_origins_list live_settings.cors_allow_origins)
    × All (IsWebOrigin platform) (allowed_origins app)
    × (any allows_credentials app.middleware ≡ false)
create_app-production_example =
    create_app-production platform ascii raw_settings live_settings fresh live_settings-load refl

-- The sample has one origin.
allowed_origins-live_settings : allowed_origins (build_app live_settings) ≡ "https://a.ir" ∷ []
unfolding cors_origins_list split is_blank strip lstrip rstrip
allowed_origins-live_settings = refl

-- Without origins there is no CORS middleware.
no_cors :
    (build_app (record live_settings { cors_allow_origins = " , " })).middleware
    ≡ request_logging ∷ []
unfolding cors_origins_list split is_blank strip lstrip rstrip
no_cors = refl
