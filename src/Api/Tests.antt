-- ===== src/Api/Tests.antt =====
-- Requests on concrete tables.
use ketabdan_ms.Prelude.{
  ◌^◌, ◌<◌, String, ◌≡◌, refl, ◌⊎◌, Bool, true, false, ◌&&◌, none, some, ltb, if◌then◌else◌, ltb→lt,
  ◌==◌, nat_eq, string_eq, ok, err,
}
use mathlib.Core.List.{List, [], ◌∷◌}
use ketabdan_ms.Prelude.Text.{strip, lstrip, rstrip, casefold, is_space}
use ketabdan_ms.Store.{User, Event, Db}
use ketabdan_ms.Uuid.{uuid_text}
use ketabdan_ms.Accounts.Rows.{UniqueIds}
use ketabdan_ms.Accounts.{
  PasswordHasher, is_secure_auth_secret, verify_password, normalize_username, named, authenticate,
}
use ketabdan_ms.Accounts.Tokens.{Jwt, access_claims, create_access_token}
use ketabdan_ms.Accounts.Authorization.{
  user_has_permission, user_permission_codes, role_permission_codes,
}
use ketabdan_ms.Api.{
  replied, unauthorized, World, Draws, TokenResponse, get_current_user, require_permission,
  issue_access_token, login,
}
use ketabdan_ms.Api.Authentication.{
  Authenticated, bearer, get_current_user_sound, get_current_user_uniform, issued-current,
}
use ketabdan_ms.Api.Login.{login-then-get_current_user}
use ketabdan_ms.Api.Service.{get_events, new_event, auth_login, resource, Call, serve_resource, run}
use ketabdan_ms.Api.Service.Access.{admitted}
use ketabdan_ms.Api.Service.Guard.{Guarded, serve_resource-Guarded}
use ketabdan_ms.Api.Service.Invariants.{run-permissions}
use ketabdan_ms.Api.Service.Conformance.{Conforms, run-Conforms}
use ketabdan_ms.Api.Service.Catalogue.{replay, view}
use ketabdan_ms.Api.Service.Refinement.{run-view}
use ketabdan_ms.Samples.{ascii, live_settings}

abbrev toy : PasswordHasher
toy = record {
  hash = λ salt password. Prim.Native.String.◌++◌ "h$" password;
  verify = λ h password.
      if h == Prim.Native.String.◌++◌ "h$" password then ok true else err "VerifyMismatchError";
  check_needs_rehash = λ h. false;
}

-- One token is known, for the user with id 5; it was issued at second 100 for half an hour.
abbrev one_token : Jwt
one_token = record {
  encode = λ claims key algorithm. "t";
  decode = λ token key algorithms now.
      if (token == "t") && ltb now 1900
      then ok (access_claims (uuid_text 5) 100 1800)
      else err "DecodeError";
}

abbrev w : World
w = record { unicode = ascii; settings = live_settings; hasher = toy; jwt = one_token }

abbrev ada : User
ada = record { id = 5; username = "ada"; password_hash = "h$correct horse"; active = true }

abbrev club : Event
club = record { id = 1; title = "Club"; type = "book-club"; planned_at = 9; status = "DRAFT" }

abbrev fair : Event
fair = record { id = 2; title = "Fair"; type = "fair"; planned_at = 4; status = "DRAFT" }

abbrev tables : Db
tables = record {
  users = ada ∷ [];
  application_roles = record { id = 1; code = "operator"; name = "Operator" } ∷ [];
  permissions = record { id = 10; code = "events:read"; name = "Read events" } ∷ [];
  application_role_permissions = record { application_role_id = 1; permission_id = 10 } ∷ [];
  user_application_roles = record { user_id = 5; application_role_id = 1 } ∷ [];
  roles = [];
  persons = [];
  person_roles = [];
  events = club ∷ fair ∷ [];
  event_responsibilities = [];
  event_assignments = [];
}

abbrev draws : Draws
draws = record { now = 100; salt = 0; id = 70 }

abbrev later : Draws
later = record { now = 200; salt = 0; id = 71 }

abbrev token : TokenResponse
token = record { access_token = "t"; token_type = "bearer"; expires_in = 1800 }

abbrev calls : List Call
calls =
    record { request = auth_login "Ada" "correct horse"; draws = draws; credentials = none }
    ∷ record {
      request = resource (
          new_event (record {
            event = record { title = "Play"; type = "play"; planned_at = 3 };
            has_offset = true;
          }));
      draws = later;
      credentials = bearer w "t";
    }
    ∷ []

abbrev collate : String → String → Bool
collate a b = true

secure : is_secure_auth_secret live_settings ≡ true
unfolding is_secure_auth_secret
secure = refl

logged_in : (login w draws "Ada" "correct horse" tables).0 ≡ replied 200 token
unfolding login authenticate is_secure_auth_secret verify_password normalize_username strip lstrip
    rstrip is_space casefold issue_access_token create_access_token
logged_in = refl

same_name : named tables (normalize_username ascii "Ada") ≡ some ada
unfolding normalize_username strip lstrip rstrip is_space casefold
same_name = refl

small : 5 < 2 ^ 128
small = ltb→lt 5 (2 ^ 128) refl

current : get_current_user w 200 (bearer w "t") tables ≡ replied 200 ada
unfolding issue_access_token create_access_token
current = issued-current w 100 200 tables ada secure refl small refl refl

may_read : require_permission w "events:read" 200 (bearer w "t") tables ≡ replied 200 ada
unfolding require_permission user_has_permission user_permission_codes role_permission_codes
may_read = rw current refl

unique : UniqueIds tables.users
unique = (refl, tt)

login-then-get_current_user_example :
    get_current_user w 200 (bearer w "t") (login w draws "Ada" "correct horse" tables).1
    ≡ replied 200 ada
login-then-get_current_user_example =
    login-then-get_current_user w draws 200 "Ada" "correct horse" tables 200 token ada logged_in
      same_name refl small refl

get_current_user_sound_example : Authenticated w 200 (bearer w "t") tables 200 ada
get_current_user_sound_example = get_current_user_sound w 200 (bearer w "t") tables 200 ada current

get_current_user_uniform_example :
    ((user : User) × (get_current_user w 200 none tables ≡ replied 200 user))
    ⊎ (get_current_user w 200 none tables ≡ unauthorized)
get_current_user_uniform_example = get_current_user_uniform w 200 none tables secure

serve_resource-Guarded_example :
    Guarded w "events:read" 200 none tables (serve_resource w collate get_events later none tables)
serve_resource-Guarded_example =
    serve_resource-Guarded w collate get_events later none tables secure

run-view_example : view (run w collate calls tables) ≡ replay w tables calls (view tables)
run-view_example = run-view w collate calls tables unique

run-permissions_example :
    (user_has_permission (run w collate calls tables) ada "events:read"
      ≡ user_has_permission tables ada "events:read")
    × (admitted (require_permission w "events:read" 200 (bearer w "t") (run w collate calls tables))
        ≡ admitted (require_permission w "events:read" 200 (bearer w "t") tables))
run-permissions_example =
    run-permissions w collate calls tables ada "events:read" 200 (bearer w "t") unique

run-Conforms_example : Conforms (run w collate calls tables)
run-Conforms_example =
    run-Conforms w collate calls tables
      (record { statuses = (refl, (refl, tt)); approvals = tt; members = tt; references = tt })
