-- ===== src/Accounts/Authorization.antt =====
-- apps/api/app/services/authz.py: permissions are resolved in the tables at every check.
use ketabdan_ms.Prelude.{
  ℕ, String, Bool, ◌&&◌, Option, none, some, List, ◌∷◌, map, if◌then◌else◌, ◌==◌, nat_eq, string_eq,
  Result, ok, err, find, keep, any, elem, concat_map,
}
use ketabdan_ms.Prelude.Text.{Unicode}
use ketabdan_ms.Prelude.Sorting.{sort}
use ketabdan_ms.Store.{User, ApplicationRole, Db}
use ketabdan_ms.Accounts.{normalize_username, named}

pub data AssignError : Type 0 where
  user_not_found : String → AssignError
  unknown_application_role : String → AssignError
  role_already_granted : String → String → AssignError

-- `ORDER BY code`, in the database's order of texts
unfoldable pub list_application_roles : (String → String → Bool) → Db → List ApplicationRole
list_application_roles collate db = sort (λ a b. collate a.code b.code) db.application_roles

-- The codes of the permissions that a role's id is joined with
unfoldable pub role_permission_codes : Db → ℕ → List String
role_permission_codes db role =
    concat_map (λ link. map (λ p. p.code) (keep (λ p. p.id == link.permission_id) db.permissions))
      (keep (λ link. link.application_role_id == role) db.application_role_permissions)

unfoldable pub user_permission_codes : Db → User → List String
user_permission_codes db user =
    concat_map (λ grant. role_permission_codes db grant.application_role_id)
      (keep (λ grant. grant.user_id == user.id) db.user_application_roles)

unfoldable pub user_has_permission : Db → User → String → Bool
user_has_permission db user permission = elem permission (user_permission_codes db user)

unfoldable pub get_application_role_by_code : Db → String → Option ApplicationRole
get_application_role_by_code db code = find (λ r. r.code == code) db.application_roles

abbrev pub has_grant : Db → ℕ → ℕ → Bool
has_grant db user role =
    any (λ g. (g.user_id == user) && (g.application_role_id == role)) db.user_application_roles

abbrev pub grant : Db → User → ApplicationRole → Db
grant db user role = record db {
  user_application_roles =
      record { user_id = user.id; application_role_id = role.id } ∷ db.user_application_roles;
}

abbrev pub assign_role :
    String → String → Db → User → Option ApplicationRole → Result AssignError User × Db
assign_role canonical code db user none = (err (unknown_application_role code), db)
assign_role canonical code db user (some role) =
    if has_grant db user.id role.id
    then (err (role_already_granted canonical code), db)
    else (ok user, grant db user role)

abbrev pub assign_user : String → String → String → Db → Option User → Result AssignError User × Db
assign_user username canonical code db none = (err (user_not_found username), db)
assign_user username canonical code db (some user) =
    assign_role canonical code db user (get_application_role_by_code db code)

unfoldable pub assign_application_role :
    Unicode → String → String → Db → Result AssignError User × Db
assign_application_role u username role_code db =
    let canonical = normalize_username u username in
    assign_user username canonical role_code db (named db canonical)
