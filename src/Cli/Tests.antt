-- ===== src/Cli/Tests.antt =====
-- The commands on concrete tables.
use ketabdan_ms.Prelude.{
  ◌≡◌, refl, true, false, some, [], ◌∷◌, ◌==◌, nat_eq, string_eq, ok, String, Bool, ◌&&◌, any, elem,
}
use ketabdan_ms.Prelude.Text.{strip, lstrip, rstrip, casefold, is_space}
use ketabdan_ms.Store.{Db}
use ketabdan_ms.Accounts.{PasswordHasher, normalize_username}
use ketabdan_ms.Accounts.Authorization.{get_application_role_by_code, assign_application_role}
use ketabdan_ms.Cli.{Creation, create_main, assign_main, print_state}
use ketabdan_ms.Cli.Listing.{has_grant_by_name, assign_main-print_state}
use ketabdan_ms.Cli.Creating.{AllOrNothing, create_main-AllOrNothing}
use ketabdan_ms.Samples.{ascii}

abbrev toy : PasswordHasher
toy = record {
  hash = λ salt password. password;
  verify = λ h password. ok (h == password);
  check_needs_rehash = λ h. false;
}

abbrev tables : Db
tables = record {
  users = record { id = 5; username = "ada"; password_hash = "h"; active = true } ∷ [];
  application_roles = record { id = 1; code = "operator"; name = "Operator" } ∷ [];
  permissions = record { id = 10; code = "events:read"; name = "Read events" } ∷ [];
  application_role_permissions = record { application_role_id = 1; permission_id = 10 } ∷ [];
  user_application_roles = [];
  roles = [];
  persons = [];
  person_roles = [];
  events = [];
  event_responsibilities = [];
  event_assignments = [];
}

-- One order of texts
abbrev before : String → String → Bool
before a b = true

abbrev creation : Creation
creation = record {
  username = "Cyd";
  role = some "operator";
  password = "correct horse";
  confirm = "correct horse";
  id = 7;
  salt = 0;
}

granted_now : (assign_main ascii false (some "ADA") (some "operator") tables).0 ≡ 0
unfolding assign_main assign_application_role get_application_role_by_code normalize_username strip
    lstrip rstrip is_space casefold
granted_now = refl

create_main-AllOrNothing_example :
    AllOrNothing ascii toy creation tables "operator" (create_main ascii toy creation tables)
create_main-AllOrNothing_example =
    create_main-AllOrNothing ascii toy creation tables "operator" refl refl

assign_main-print_state_example :
    (any
        (λ line. (line.code == "operator") && elem (normalize_username ascii "ADA") line.holders)
        (print_state before (assign_main ascii false (some "ADA") (some "operator") tables).1)
      ≡ true)
    × (any
          (λ line. (line.code == "operator") && elem "bob" line.holders)
          (print_state before tables)
        ≡ any
            (λ role. (role.code == "operator") && has_grant_by_name tables role.id "bob")
            tables.application_roles)
assign_main-print_state_example =
    assign_main-print_state before ascii "ADA" "operator" tables "operator" "bob" granted_now
