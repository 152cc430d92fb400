-- ===== src/Seeds/Matrix.antt =====
-- What the seeded rows let a user do.
use ketabdan_ms.Prelude.{
  ℕ, String, ◌≡◌, refl, sym, ap, ◌∙◌, inl, inr, true, false, not, ◌||◌, Option, none, some, List,
  [], ◌∷◌, if◌then◌else◌, Bool-cases, ◌==◌, nat_eq, string_eq, ==→≡, ok, keep, elem, or_false,
}
use mathlib.Core.Path.{subst}
use ketabdan_ms.Prelude.Text.{Unicode}
use ketabdan_ms.Store.{User, ApplicationRole, Db}
use ketabdan_ms.Accounts.Authorization.{
  role_permission_codes, user_permission_codes, user_has_permission, get_application_role_by_code,
  assign_application_role,
}
use ketabdan_ms.Accounts.Grants.{assign-grants, assign_sound}
use ketabdan_ms.Seeds.{upgrade, operator_id, manager_id, admin_id}

-- `ALL_PERMISSION_CODES`, a set
abbrev pub all_permission_codes : List String
all_permission_codes =
    "assignments:create" ∷ "assignments:read" ∷ "events:create" ∷ "events:read" ∷ "people:create"
    ∷ "people:read" ∷ "roles:read" ∷ []

-- The documented matrix: an operator may do all but create people.
abbrev pub documented : String → List String
documented code =
    if code == "operator"
    then keep (λ c. not (c == "people:create")) all_permission_codes
    else all_permission_codes

abbrev from_option : Db → Option Db → Db
from_option db none = db
from_option db (some db') = db'

seeded : Db → Db
unfolding upgrade
seeded db = from_option db (upgrade db)

upgrade-seeded : (db : Db) → upgrade db ≡ some (seeded db)
unfolding upgrade seeded
upgrade-seeded db = refl

same_role : (r r' : ApplicationRole) → some r ≡ some r' → r ≡ r'
same_role r r' h = cc

operator_codes : (db : Db) → role_permission_codes (seeded db) operator_id ≡ documented "operator"
unfolding upgrade seeded role_permission_codes
operator_codes db = refl

manager_codes : (db : Db) → role_permission_codes (seeded db) manager_id ≡ documented "manager"
unfolding upgrade seeded role_permission_codes
manager_codes db = refl

admin_codes : (db : Db) → role_permission_codes (seeded db) admin_id ≡ documented "admin"
unfolding upgrade seeded role_permission_codes
admin_codes db = refl

-- A code that a role has is one of the three.
data Seeded (db : Db) : String → ℕ → Type 0 where
  operator : Seeded db "operator" operator_id
  manager : Seeded db "manager" manager_id
  admin : Seeded db "admin" admin_id

Seeded-codes :
    (db : Db) (code : String) (id : ℕ)
    → Seeded db code id
    → role_permission_codes (seeded db) id ≡ documented code
Seeded-codes db code id operator = operator_codes db
Seeded-codes db code id manager = manager_codes db
Seeded-codes db code id admin = admin_codes db

is_seeded :
    (db : Db) (c code : String) (r role : ApplicationRole)
    → Seeded db c r.id
    → (c == code) ≡ true
    → some r ≡ some role
    → Seeded db code role.id
is_seeded db c code r role s e h =
    subst (λ (x : ApplicationRole). Seeded db code x.id) (same_role r role h)
      (subst (λ x. Seeded db x r.id) (==→≡ c code e) s)

seeded-cases :
    (db : Db) (code : String) (role : ApplicationRole)
    → get_application_role_by_code (seeded db) code ≡ some role
    → Seeded db code role.id
unfolding upgrade seeded get_application_role_by_code
seeded-cases db code role h = elim (Bool-cases ("operator" == code)) [
  | inl e ↦ is_seeded db _ code _ role operator e (rw e at h)
  | inr e ↦ elim (Bool-cases ("manager" == code)) [
    | inl e' ↦ is_seeded db _ code _ role manager e' (rw (e, e') at h)
    | inr e' ↦ elim (Bool-cases ("admin" == code)) [
      | inl e'' ↦ is_seeded db _ code _ role admin e'' (rw (e, e', e'') at h)
      | inr e'' ↦ (let h' = rw (e, e', e'') at h in cc)
    ]
  ]
]

no_grants : (db : Db) (user : User) (p : String) → user_has_permission (seeded db) user p ≡ false
unfolding upgrade seeded user_has_permission user_permission_codes
no_grants db user p = refl

same_tables : (a b : Db) → some a ≡ some b → a ≡ b
same_tables a b h = cc

-- A role that the migration left has the documented permissions.
pub upgrade-role_permission_codes :
    (db db' : Db) (code : String) (role : ApplicationRole)
    → upgrade db ≡ some db'
    → get_application_role_by_code db' code ≡ some role
    → role_permission_codes db' role.id ≡ documented code
upgrade-role_permission_codes db db' code role m found =
    let same = same_tables (seeded db) db' (sym (upgrade-seeded db) ∙ m) in
    ap (λ x. role_permission_codes x role.id) (sym same)
    ∙ Seeded-codes db code role.id
        (seeded-cases db code role (ap (λ x. get_application_role_by_code x code) same ∙ found))

seeded_grants : (db : Db) → (seeded db).user_application_roles ≡ []
unfolding upgrade seeded
seeded_grants db = refl

-- The migration leaves no grants.
pub upgrade-user_application_roles :
    (db db' : Db) → upgrade db ≡ some db' → db'.user_application_roles ≡ []
upgrade-user_application_roles db db' m =
    ap (λ x. x.user_application_roles)
      (sym (same_tables (seeded db) db' (sym (upgrade-seeded db) ∙ m)))
    ∙ seeded_grants db

-- After the migration that creates the tables of the authorization, a user who is given a role has
-- exactly the documented permissions of that role: all seven for an admin and a manager, and all
-- but people:create for an operator.
pub upgrade-then-assign :
    (u : Unicode) (db db' : Db) (username code p : String) (user : User)
    → upgrade db ≡ some db'
    → (assign_application_role u username code db').0 ≡ ok user
    → user_has_permission (assign_application_role u username code db').1 user p
      ≡ elem p (documented code)
upgrade-then-assign u db db' username code p user m h =
    let same = same_tables (seeded db) db' (sym (upgrade-seeded db) ∙ m) in
    let a = assign_sound u username code db' user h in
    let codes = upgrade-role_permission_codes db db' code a.role m a.found in
    let before = ap (λ x. user_has_permission x user p) (sym same) ∙ no_grants db user p in
    assign-grants u username code p db' user a.role h a.found
    ∙ ap (λ cs. elem p cs || user_has_permission db' user p) codes
    ∙ or_false (elem p (documented code)) (user_has_permission db' user p) before
