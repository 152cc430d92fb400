-- ===== src/Config/Tests.antt =====
-- Settings on concrete values.
use ketabdan_ms.Prelude.{◌≡◌, refl, nat_eq, string_eq, ok}
use ketabdan_ms.Prelude.Text.{lower, upper, strip, lstrip, rstrip, split, is_blank}
use ketabdan_ms.Config.{
  load_settings, production_requirements, check_app_env, log_level_is_standard, numbers_in_range,
  urls_and_origins_well_formed, retry_delays_make_sense, cors_origins_list,
}
use ketabdan_ms.Config.Url.{urlsplit}
use ketabdan_ms.Config.Policy.{IsSecure, load_settings-IsSecure}
use ketabdan_ms.Samples.{platform, raw_settings, live_settings}

pub live_settings-load : load_settings platform raw_settings ≡ ok live_settings
unfolding load_settings production_requirements check_app_env log_level_is_standard numbers_in_range
    urls_and_origins_well_formed retry_delays_make_sense cors_origins_list lower upper strip lstrip
    rstrip split is_blank urlsplit
live_settings-load = refl

load_settings-IsSecure_example : IsSecure live_settings
load_settings-IsSecure_example =
    load_settings-IsSecure platform raw_settings live_settings live_settings-load refl
