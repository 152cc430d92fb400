-- ===== src/Bootstrap/Tests.antt =====
-- The first user of a concrete installation.
use ketabdan_ms.Prelude.{
  ◌^◌, ◌≡◌, refl, true, false, Option, none, some, [], ltb, if◌then◌else◌, ltb→lt, ◌&&◌, ◌==◌,
  nat_eq, string_eq, ok, err,
}
use ketabdan_ms.Prelude.Text.{strip, lstrip, rstrip, casefold, is_space}
use ketabdan_ms.Store.{Db}
use ketabdan_ms.Uuid.{uuid_text}
use ketabdan_ms.Accounts.{PasswordHasher, is_secure_auth_secret, normalize_username, create_user}
use ketabdan_ms.Accounts.Tokens.{Jwt, access_claims}
use ketabdan_ms.Accounts.Authorization.{get_application_role_by_code, assign_application_role}
use ketabdan_ms.Seeds.{upgrade}
use ketabdan_ms.Cli.{Creation, create_main}
use ketabdan_ms.Api.{World, Draws}
use ketabdan_ms.Bootstrap.{Opens, create_main-Opens}
use ketabdan_ms.Samples.{ascii, live_settings}

abbrev toy : PasswordHasher
toy = record {
  hash = λ salt password. Prim.Native.String.◌++◌ "h$" password;
  verify = λ h password.
      if h == Prim.Native.String.◌++◌ "h$" password then ok true else err "VerifyMismatchError";
  check_needs_rehash = λ h. false;
}

-- One token is known, for the user with id 7.
abbrev one_token : Jwt
one_token = record {
  encode = λ claims key algorithm. "t";
  decode = λ token key algorithms now.
      if (token == "t") && ltb now 1900
      then ok (access_claims (uuid_text 7) 100 1800)
      else err "DecodeError";
}

abbrev w : World
w = record { unicode = ascii; settings = live_settings; hasher = toy; jwt = one_token }

abbrev creation : Creation
creation = record {
  username = "Cyd";
  role = some "operator";
  password = "correct horse";
  confirm = "correct horse";
  id = 7;
  salt = 0;
}

abbrev draws : Draws
draws = record { now = 100; salt = 0; id = 70 }

abbrev empty : Db
empty = record {
  users = [];
  application_roles = [];
  permissions = [];
  application_role_permissions = [];
  user_application_roles = [];
  roles = [];
  persons = [];
  person_roles = [];
  events = [];
  event_responsibilities = [];
  event_assignments = [];
}

abbrev or_else : Option Db → Db → Db
or_else none db = db
or_else (some db') db = db'

migrated : Db
unfolding upgrade
migrated = or_else (upgrade empty) empty

upgrades : upgrade empty ≡ some migrated
unfolding upgrade migrated
upgrades = refl

secure : is_secure_auth_secret live_settings ≡ true
unfolding is_secure_auth_secret
secure = refl

same_name : normalize_username ascii "CYD" ≡ normalize_username ascii "Cyd"
unfolding normalize_username strip lstrip rstrip is_space casefold
same_name = refl

exits_0 : (create_main ascii toy creation migrated).0 ≡ 0
unfolding upgrade migrated create_main create_user assign_application_role
    get_application_role_by_code normalize_username strip lstrip rstrip is_space casefold
exits_0 = refl

create_main-Opens_example :
    Opens w creation draws "CYD" 200 "operator" "people:create"
      (create_main ascii toy creation migrated).1
create_main-Opens_example =
    create_main-Opens w creation draws "CYD" 200 "operator" "people:create" empty migrated secure
      (record { verified = refl; current = refl }) (ltb→lt 7 (2 ^ 128) refl) refl refl same_name
      upgrades refl exits_0
