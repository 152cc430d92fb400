-- ===== src/Seeds.antt =====
-- The data migrations apps/api/alembic/versions/0002_seed_initial_roles.py,
-- 0003_seed_initial_responsibilities.py and 0005_add_application_authorization_tables.py. A UUID
-- literal is the number with its hexadecimal digits. A run that raises is rolled back.
pub mod Inserts
pub mod Matrix
mod Rows
pub mod Roles
mod Tests
use ketabdan_ms.Prelude.{
  ℕ, zero, suc, ◌+◌, ◌-◌, ◌*◌, ◌/◌, ◌%◌, ◌^◌, ◌≤◌, ◌<◌, String, ◌≡◌, refl, sym, ap, ◌∙◌, ◌≢◌, ◌↔◌,
  ◌⊎◌, inl, inr, Bool, true, false, not, ◌&&◌, ◌||◌, Option, none, some, List, [], ◌∷◌, ◌++◌, map,
  arith, eq_iff, ltb, leb, eqb, if◌then◌else◌, Bool-cases, Option-cases, ltb→lt, lt→ltb, leb→le, Eq,
  ◌==◌, nat_eq, string_eq, ==_refl, ==→≡, Result, ok, err, >>=-eq-ok, length, length-append, find,
  keep, any, Any, elem, or_false,
}
use ketabdan_ms.Store.{
  ApplicationRole, Permission, ApplicationRolePermission, Role, EventResponsibility, Db,
}
pub use ketabdan_ms.Seeds.Rows.{
  seed_roles, seed_responsibilities, seed_application_roles, seed_permissions,
  seed_application_role_permissions, admin_id, manager_id, operator_id,
}

-- `INSERT ... ON CONFLICT (...) DO NOTHING`, row by row: a row that conflicts is skipped, and one that
-- is against another constraint raises.
module _ {A : Type 0} (conflicts violates : A → A → Bool) where
  abbrev pub insert_row : A → List A → Option (List A)
  insert_row row table =
      if any (conflicts row) table
      then some table
      else (if any (violates row) table then none else some (row ∷ table))

  abbrev pub insert_all : List A → List A → Option (List A)
  insert_all [] table = some table
  insert_all (row ∷ rows) table = elim (insert_row row table) [
    | none ↦ none
    | some table' ↦ insert_all rows table'
  ]

abbrev pub with_rows : {A : Type 0} → (List A → Db) → Option (List A) → Option Db
with_rows f none = none
with_rows f (some rows) = some (f rows)

-- The second statement runs if the first did not raise.
abbrev pub and_then : Option Db → (Db → Option Db) → Option Db
and_then none f = none
and_then (some db) f = f db

-- Which stored row a row conflicts with by its code, and the other constraints: the primary key and
-- the unique name
abbrev pub insert_seed_roles : Db → Option Db
insert_seed_roles db =
    with_rows (λ rows. record db { roles = rows })
      (insert_all (λ row x. x.code == row.code) (λ row x. (x.id == row.id) || (x.name == row.name))
        seed_roles db.roles)

-- A role that a person has may not be deleted.
abbrev pub delete_seed_roles : Db → Option Db
delete_seed_roles db =
    let ids = map (λ r. r.id) seed_roles in
    let gone = keep (λ r. elem r.id ids) db.roles in
    if any (λ link. any (λ r. r.id == link.role_id) gone) db.person_roles
    then none
    else some (record db { roles = keep (λ r. not (elem r.id ids)) db.roles })

abbrev pub insert_seed_responsibilities : Db → Option Db
insert_seed_responsibilities db =
    with_rows (λ rows. record db { event_responsibilities = rows })
      (insert_all (λ row x. x.code == row.code) (λ row x. (x.id == row.id) || (x.name == row.name))
        seed_responsibilities db.event_responsibilities)

-- A responsibility that an assignment names may not be deleted.
abbrev pub delete_seed_responsibilities : Db → Option Db
delete_seed_responsibilities db =
    let ids = map (λ r. r.id) seed_responsibilities in
    let gone = keep (λ r. elem r.id ids) db.event_responsibilities in
    if any (λ a. any (λ r. r.id == a.responsibility_id) gone) db.event_assignments
    then none
    else some (record db {
      event_responsibilities = keep (λ r. not (elem r.id ids)) db.event_responsibilities;
    })

abbrev pub insert_application_roles : Db → Option Db
insert_application_roles db =
    with_rows (λ rows. record db { application_roles = rows })
      (insert_all (λ row x. x.code == row.code) (λ row x. (x.id == row.id) || (x.name == row.name))
        seed_application_roles db.application_roles)

abbrev pub insert_permissions : Db → Option Db
insert_permissions db =
    with_rows (λ rows. record db { permissions = rows })
      (insert_all (λ row x. x.code == row.code) (λ row x. (x.id == row.id) || (x.name == row.name))
        seed_permissions db.permissions)

-- A link is against a foreign key if its role or its permission is not stored.
abbrev pub insert_links : Db → Option Db
insert_links db =
    if any
      (λ link.
        not (any (λ r. r.id == link.application_role_id) db.application_roles)
        || not (any (λ p. p.id == link.permission_id) db.permissions))
      seed_application_role_permissions
    then none
    else with_rows (λ rows. record db { application_role_permissions = rows })
        (insert_all
          (λ row x.
            (x.application_role_id == row.application_role_id)
            && (x.permission_id == row.permission_id))
          (λ row x. false) seed_application_role_permissions db.application_role_permissions)

abbrev pub insert_seed_authorization_data : Db → Option Db
insert_seed_authorization_data db =
    and_then (and_then (insert_application_roles db) insert_permissions) insert_links

-- `upgrade` of 0005 creates the four tables and fills them.
unfoldable pub upgrade : Db → Option Db
upgrade db = insert_seed_authorization_data (record db {
  application_roles = [];
  permissions = [];
  application_role_permissions = [];
  user_application_roles = [];
})
