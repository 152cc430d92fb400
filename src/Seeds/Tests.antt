-- ===== src/Seeds/Tests.antt =====
-- The seeds on concrete tables.
use ketabdan_ms.Prelude.{◌≡◌, refl, true, Option, none, some, [], ◌∷◌, nat_eq, string_eq, ok, elem}
use ketabdan_ms.Prelude.Text.{strip, lstrip, rstrip, casefold, is_space}
use ketabdan_ms.Store.{User, Role, Db}
use ketabdan_ms.Accounts.{normalize_username}
use ketabdan_ms.Accounts.Authorization.{
  user_has_permission, get_application_role_by_code, assign_application_role,
}
use ketabdan_ms.Seeds.{insert_seed_roles, upgrade}
use ketabdan_ms.Seeds.Matrix.{documented, upgrade-then-assign}
use ketabdan_ms.Samples.{ascii}

abbrev ada : User
ada = record { id = 5; username = "ada"; password_hash = "h"; active = true }

abbrev coach : Role
coach = record { id = 21; code = "coach"; name = "A coach" }

abbrev fresh : Db
fresh = record {
  users = ada ∷ [];
  application_roles = [];
  permissions = [];
  application_role_permissions = [];
  user_application_roles = [];
  roles = coach ∷ [];
  persons = [];
  person_roles = [];
  events = [];
  event_responsibilities = [];
  event_assignments = [];
}

abbrev or_else : Option Db → Db → Db
or_else none db = db
or_else (some db') db = db'

abbrev with_roles : Db
with_roles = or_else (insert_seed_roles fresh) fresh

inserted : insert_seed_roles fresh ≡ some with_roles
inserted = refl

migrated : Db
unfolding upgrade
migrated = or_else (upgrade fresh) fresh

upgrades : upgrade fresh ≡ some migrated
unfolding upgrade migrated
upgrades = refl

assigned : (assign_application_role ascii "Ada" "operator" migrated).0 ≡ ok ada
unfolding upgrade migrated assign_application_role get_application_role_by_code normalize_username
    strip lstrip rstrip is_space casefold
assigned = refl

upgrade-then-assign_example :
    user_has_permission
      (assign_application_role ascii "Ada" "operator" migrated).1
      ada
      "people:create"
    ≡ elem "people:create" (documented "operator")
upgrade-then-assign_example =
    upgrade-then-assign ascii fresh migrated "Ada" "operator" "people:create" ada upgrades assigned
