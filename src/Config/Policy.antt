-- ===== src/Config/Policy.antt =====
-- What validated settings guarantee, in production and elsewhere.
use ketabdan_ms.Prelude.{
  ◌≤◌, ◌<◌, String, ◌≡◌, sym, ap, ◌∙◌, ◌≢◌, ◌↔◌, ◌⊎◌, inl, inr, true, false, none, List, [], ◌∷◌,
  arith, eq_iff, Bool-cases, nat_eq, string_eq, ok, >>=-eq-ok, elem,
}
use Prim.Native.String.{count}
use mathlib.Core.Path.{subst}
use mathlib.Core.Bool.{true≢false}
use ketabdan_ms.Config.{
  Settings, RawSettings, Environment, production, Platform, auth_secret_placeholder,
  auth_secret_min_length, valid_levels, cors_origins_list, check_app_env, log_level_is_standard,
  numbers_in_range, urls_and_origins_well_formed, retry_delays_make_sense, production_requirements,
  load_settings, check_origins, is_production,
}

-- The fail-closed policy.
pub record IsSecure (s : Settings) : Type 0 where
  pub no_insecure_flag : s.auth_allow_insecure_dev_secret ≡ false
  pub real_secret : s.auth_secret_key ≢ auth_secret_placeholder
  pub long_secret : auth_secret_min_length ≤ count s.auth_secret_key
  pub has_database : s.database_url ≢ none
  pub redis_set : s.redis_url_set ≡ true
  pub no_wildcard : elem "*" (cors_origins_list s.cors_allow_origins) ≡ false

pub record InRange (s : Settings) : Type 0 where
  pub timeout_pos : 0 < s.notification_timeout_seconds
  pub attempts_pos : 0 < s.notification_max_attempts
  pub base_pos : 0 < s.notification_retry_base_delay_seconds
  pub base_le_max : s.notification_retry_base_delay_seconds ≤ s.notification_retry_max_delay_seconds
  pub port_small : s.worker_metrics_port ≤ 65535
  pub level_known : elem s.log_level valid_levels ≡ true

numbers-keep :
    (s s' : Settings)
    → numbers_in_range s ≡ ok s'
    → (s' ≡ s)
      × (0 < s.notification_timeout_seconds)
      × (0 < s.notification_max_attempts)
      × (0 < s.notification_retry_base_delay_seconds)
      × (s.worker_metrics_port ≤ 65535)
unfolding numbers_in_range
numbers-keep s s' h = ground arith

retry-keeps :
    (s s' : Settings)
    → retry_delays_make_sense s ≡ ok s'
    → (s' ≡ s) × (s.notification_retry_base_delay_seconds ≤ s.notification_retry_max_delay_seconds)
unfolding retry_delays_make_sense
retry-keeps s s' h = ground arith

is_production_iff : (e : Environment) → (is_production e ≡ true) ↔ (e ≡ production)
unfolding is_production
is_production_iff production = ground arith
is_production_iff e = ground arith

production_requirements-IsSecure :
    (s s' : Settings)
    → is_production s.app_env ≡ true
    → production_requirements s ≡ ok s'
    → IsSecure s
unfolding production_requirements
production_requirements-IsSecure s s' live h = record {
  no_insecure_flag = ground arith;
  real_secret = λ e. ground (arith, eq_iff s.auth_secret_key auth_secret_placeholder);
  long_secret = ground arith;
  has_database = λ e. ground arith;
  redis_set = ground arith;
  no_wildcard = ground arith;
}

accepted_of : (s : Settings) → IsSecure s → production_requirements s ≡ ok s
unfolding production_requirements
accepted_of s v =
    let flag = v.no_insecure_flag in
    let real = v.real_secret in
    let long = v.long_secret in
    let database = v.has_database in
    let redis = v.redis_set in
    let wildcard = v.no_wildcard in ground (arith, eq_iff s.auth_secret_key auth_secret_placeholder)

-- The last validator accepts settings exactly when they are not for production or meet the whole
-- policy, and then it changes nothing.
production_requirements-eq-ok_iff :
    (s s' : Settings)
    → (production_requirements s ≡ ok s') ↔ ((s' ≡ s) × ((s.app_env ≢ production) ⊎ IsSecure s))
unfolding production_requirements
production_requirements-eq-ok_iff s s' =
    let live = is_production_iff s.app_env in
    elim (Bool-cases (is_production s.app_env)) [
      | inl in_production ↦ (
        (λ h. (ground arith, inr (production_requirements-IsSecure s s' in_production h))),
        λ (e, k). elim k [
          | inl other ↦ absurd (other (live.0 in_production))
          | inr v ↦ accepted_of s v ∙ ap ok (sym e)
        ],
      )
      | inr elsewhere ↦ (
        (λ h. (ground arith, inl (λ e. true≢false (sym (live.1 e) ∙ elsewhere)))),
        λ h. ground arith,
      )
    ]

module _ (os : Platform) where
  check_app_env-keeps :
      (value : String) (s s' : Settings)
      → check_app_env os value s ≡ ok s'
      → (e : Environment) × (s' ≡ record s { app_env = e })
  unfolding check_app_env
  check_app_env-keeps value s s' h = (s'.app_env, ground arith)

  log_level-keeps :
      (s s' : Settings)
      → log_level_is_standard os s ≡ ok s'
      → (level : String) × (elem level valid_levels ≡ true) × (s' ≡ record s { log_level = level })
  unfolding log_level_is_standard
  log_level-keeps s s' h = (s'.log_level, ground arith, ground arith)

  origins-keep : (os' : List String) (s s' : Settings) → check_origins os os' s ≡ ok s' → s' ≡ s
  unfolding check_origins
  origins-keep [] s s' h = ground arith
  origins-keep (o ∷ os') s s' h = ground (arith, origins-keep os' s s')

  urls-keep : (s s' : Settings) → urls_and_origins_well_formed os s ≡ ok s' → s' ≡ s
  unfolding urls_and_origins_well_formed
  urls-keep s s' h = ground (arith, origins-keep (cors_origins_list s.cors_allow_origins) s s')

  loaded :
      (raw : RawSettings) (s : Settings)
      → load_settings os raw ≡ ok s
      → InRange s × (production_requirements s ≡ ok s) × (urls_and_origins_well_formed os s ≡ ok s)
  unfolding load_settings
  loaded raw s h =
      let (s5, h5, p5) = >>=-eq-ok _ production_requirements h in
      let (s4, h4, p4) = >>=-eq-ok _ retry_delays_make_sense h5 in
      let (s3, h3, p3) = >>=-eq-ok _ (urls_and_origins_well_formed os) h4 in
      let (s2, h2, p2) = >>=-eq-ok _ numbers_in_range h3 in
      let (s1, h1, p1) = >>=-eq-ok _ (log_level_is_standard os) h2 in
      let (level, known, e1) = log_level-keeps s1 s2 p1 in
      let (e2, timeout, attempts, base, port) = numbers-keep s2 s3 p2 in
      let e3 = urls-keep s3 s4 p3 in
      let (e4, ordered) = retry-keeps s4 s5 p4 in
      let e5 = ((production_requirements-eq-ok_iff s5 s).0 p5).0 in
      let to_s5 : (s2 ≡ s5) = sym e2 ∙ sym e3 ∙ sym e4 in
      let in_range : InRange s2 = record {
        timeout_pos = timeout;
        attempts_pos = attempts;
        base_pos = base;
        base_le_max = rw (to_s5 ∙ e4) ordered;
        port_small = port;
        level_known = ap (λ (x : Settings). elem x.log_level valid_levels) e1 ∙ known;
      } in
      (
        subst InRange (to_s5 ∙ sym e5) in_range,
        subst (λ x. production_requirements x ≡ ok s) (sym e5) p5,
        ap (urls_and_origins_well_formed os) (e5 ∙ e4 ∙ e3) ∙ p3 ∙ ap ok (sym (e5 ∙ e4)),
      )

  -- Settings that load are in range: the timeout, the attempts and the base delay are positive, the
  -- base delay is at most the longest, the port fits, and the log level is a standard one.
  pub load_settings-InRange :
      (raw : RawSettings) (s : Settings) → load_settings os raw ≡ ok s → InRange s
  load_settings-InRange raw s h = (loaded raw s h).0

  -- The URLs and the origins of settings that load are well formed.
  pub load_settings-WellFormed :
      (raw : RawSettings) (s : Settings)
      → load_settings os raw ≡ ok s
      → urls_and_origins_well_formed os s ≡ ok s
  load_settings-WellFormed raw s h = (loaded raw s h).2

  -- Settings for production that load meet the whole fail-closed policy.
  pub load_settings-IsSecure :
      (raw : RawSettings) (s : Settings)
      → load_settings os raw ≡ ok s
      → s.app_env ≡ production
      → IsSecure s
  load_settings-IsSecure raw s h live =
      elim ((production_requirements-eq-ok_iff s s).0 (loaded raw s h).1).1 [
        | inl other ↦ absurd (other live)
        | inr v ↦ v
      ]
