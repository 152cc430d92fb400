-- ===== src/Accounts/Tests.antt =====
-- Accounts and permissions on concrete values.
use ketabdan_ms.Prelude.{
  ◌≡◌, refl, ◌↔◌, true, false, ◌&&◌, some, [], ◌∷◌, ltb, if◌then◌else◌, ◌==◌, nat_eq, string_eq, ok,
  err, Any,
}
use ketabdan_ms.Prelude.Text.{strip, lstrip, rstrip, casefold, is_space}
use ketabdan_ms.Store.{User, ApplicationRole, Db}
use ketabdan_ms.Accounts.{
  PasswordHasher, verify_password, normalize_username, authenticate, is_secure_auth_secret,
  authentication_error, create_user,
}
use ketabdan_ms.Accounts.Login.{Admitted, authenticate_sound, authenticate_uniform}
use ketabdan_ms.Accounts.Creation.{UniqueNames, create-then-authenticate}
use ketabdan_ms.Accounts.Authorization.{
  user_has_permission, get_application_role_by_code, assign_application_role,
}
use ketabdan_ms.Accounts.Grants.{GrantedBy, user_has_permission_iff}
use ketabdan_ms.Json.{get}
use ketabdan_ms.Accounts.Tokens.{
  Jwt, access_claims, create_access_token, decode_access_token, resolve_token_subject,
}
use ketabdan_ms.Accounts.Subjects.{Resolved, resolve_token_subject_sound, issue-then-resolve}
use ketabdan_ms.Samples.{ascii, live_settings}

-- A hasher whose hashes begin with a mark; it verifies those and raises on others.
abbrev toy : PasswordHasher
toy = record {
  hash = λ salt password. Prim.Native.String.◌++◌ "h$" password;
  verify = λ h password.
      if h == Prim.Native.String.◌++◌ "h$" password then ok true else err "VerifyMismatchError";
  check_needs_rehash = λ h. false;
}

abbrev operator : ApplicationRole
operator = record { id = 1; code = "operator"; name = "Operator" }

abbrev stored : User
stored = record { id = 5; username = "ada"; password_hash = "h$correct horse"; active = true }

abbrev other : User
other = record { id = 6; username = "bob"; password_hash = "h$battery staple"; active = true }

abbrev tables : Db
tables = record {
  users = stored ∷ other ∷ [];
  application_roles = operator ∷ [];
  permissions =
      record { id = 10; code = "events:read"; name = "Read events" }
      ∷ record { id = 11; code = "people:create"; name = "Create people" }
      ∷ [];
  application_role_permissions = record { application_role_id = 1; permission_id = 10 } ∷ [];
  user_application_roles = [];
  roles = [];
  persons = [];
  person_roles = [];
  events = [];
  event_responsibilities = [];
  event_assignments = [];
}

abbrev created : User
created = record { id = 7; username = "cyd"; password_hash = "h$correct horse"; active = true }

secure : is_secure_auth_secret live_settings ≡ true
unfolding is_secure_auth_secret
secure = refl

logged_in :
    (authenticate ascii toy live_settings 0 " Ada " "correct horse" tables).result ≡ ok stored
unfolding authenticate is_secure_auth_secret verify_password normalize_username strip lstrip rstrip
    is_space casefold
logged_in = refl

refused :
    (authenticate ascii toy live_settings 0 "ada" "wrong" tables).result ≡ err authentication_error
unfolding authenticate is_secure_auth_secret verify_password normalize_username strip lstrip rstrip
    is_space casefold
refused = refl

cyd_created : (create_user ascii toy 7 0 "Cyd" "correct horse" true tables).0 ≡ ok created
unfolding create_user normalize_username strip lstrip rstrip is_space casefold
cyd_created = refl

same_name : normalize_username ascii "CYD " ≡ normalize_username ascii "Cyd"
unfolding normalize_username strip lstrip rstrip is_space casefold
same_name = refl

assigned : (assign_application_role ascii "ADA" "operator" tables).0 ≡ ok stored
unfolding assign_application_role get_application_role_by_code normalize_username strip lstrip
    rstrip is_space casefold
assigned = refl

found : get_application_role_by_code tables "operator" ≡ some operator
unfolding get_application_role_by_code
found = refl

unique : UniqueNames tables.users
unique = (refl, (refl, _))

authenticate_sound_example :
    Admitted ascii toy live_settings 0 " Ada " "correct horse" tables stored
      (authenticate ascii toy live_settings 0 " Ada " "correct horse" tables).db
authenticate_sound_example =
    authenticate_sound ascii toy live_settings 0 " Ada " "correct horse" tables stored logged_in

authenticate_uniform_example :
    (authentication_error ≡ authentication_error)
    × ((authenticate ascii toy live_settings 0 "ada" "wrong" tables).db ≡ tables)
authenticate_uniform_example =
    authenticate_uniform ascii toy live_settings 0 "ada" "wrong" tables authentication_error secure
      refused

create-then-authenticate_example :
    (authenticate ascii toy live_settings 1 "CYD " "correct horse"
      (create_user ascii toy 7 0 "Cyd" "correct horse" true tables).1).result
    ≡ ok created
create-then-authenticate_example =
    create-then-authenticate ascii toy live_settings 7 0 1 "Cyd" "CYD " "correct horse" tables
      created secure refl refl same_name cyd_created

user_has_permission_iff_example :
    (user_has_permission tables stored "events:read" ≡ true)
    ↔ Any (GrantedBy tables stored "events:read") tables.user_application_roles
user_has_permission_iff_example = user_has_permission_iff tables stored "events:read"

-- One token is known; it was issued at second 100 for half an hour.
abbrev one_token : Jwt
one_token = record {
  encode = λ claims key algorithm. "t";
  decode = λ token key algorithms now.
      if (token == "t") && ltb now 1900 then ok (access_claims "7" 100 1800) else err "DecodeError";
}

seven : resolve_token_subject one_token live_settings 200 "t" ≡ ok "7"
unfolding resolve_token_subject decode_access_token is_secure_auth_secret get
seven = refl

resolve_token_subject_sound_example : Resolved one_token live_settings 200 "t" "7"
resolve_token_subject_sound_example =
    resolve_token_subject_sound one_token live_settings 200 "t" "7" seven

issue-then-resolve_example :
    resolve_token_subject one_token live_settings 200
      (create_access_token one_token 100 "7" live_settings.auth_secret_key
        live_settings.auth_algorithm 1800).0
    ≡ ok "7"
issue-then-resolve_example =
    issue-then-resolve one_token live_settings 100 200 1800 "7" secure refl refl
