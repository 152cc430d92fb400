-- ===== src/Schema/Authorization.antt =====
-- The statements of apps/api/alembic/versions/0004_create_users_table.py and of
-- 0005_add_application_authorization_tables.py, whose rows are in Seeds.
use ketabdan_ms.Prelude.{false, none, some, List, [], ◌∷◌, nat_eq, string_eq}
use ketabdan_ms.Schema.{
  uuid, text, boolean, cascade, restrict, primary_key, unique, foreign_key, Table, Statement,
  create_table, create_index, drop_index, drop_table, column, audit, index,
}

abbrev pub users_table : Table
users_table = record {
  name = "users";
  columns =
      column "id" uuid false none
      ∷ column "username" text false none
      ∷ column "password_hash" text false none
      ∷ column "active" boolean false (some "true")
      ∷ audit "created_at"
      ∷ audit "updated_at"
      ∷ [];
  constraints =
      primary_key "pk_users" ("id" ∷ []) ∷ unique "uq_users_username" ("username" ∷ []) ∷ [];
}

abbrev pub upgrade_users : List Statement
upgrade_users = create_table users_table ∷ []

abbrev pub downgrade_users : List Statement
downgrade_users = drop_table "users" ∷ []

abbrev pub application_roles_table : Table
application_roles_table = record {
  name = "application_roles";
  columns =
      column "id" uuid false none
      ∷ column "code" text false none
      ∷ column "name" text false none
      ∷ audit "created_at"
      ∷ audit "updated_at"
      ∷ [];
  constraints =
      primary_key "pk_application_roles" ("id" ∷ [])
      ∷ unique "uq_application_roles_code" ("code" ∷ [])
      ∷ unique "uq_application_roles_name" ("name" ∷ [])
      ∷ [];
}

abbrev pub permissions_table : Table
permissions_table = record {
  name = "permissions";
  columns =
      column "id" uuid false none
      ∷ column "code" text false none
      ∷ column "name" text false none
      ∷ audit "created_at"
      ∷ audit "updated_at"
      ∷ [];
  constraints =
      primary_key "pk_permissions" ("id" ∷ [])
      ∷ unique "uq_permissions_code" ("code" ∷ [])
      ∷ unique "uq_permissions_name" ("name" ∷ [])
      ∷ [];
}

abbrev pub user_application_roles_table : Table
user_application_roles_table = record {
  name = "user_application_roles";
  columns =
      column "user_id" uuid false none
      ∷ column "application_role_id" uuid false none
      ∷ audit "created_at"
      ∷ [];
  constraints =
      primary_key "pk_user_application_roles" ("user_id" ∷ "application_role_id" ∷ [])
      ∷ foreign_key "fk_user_application_roles_user_id_users" ("user_id" ∷ []) "users" ("id" ∷ [])
          cascade
      ∷ foreign_key "fk_user_application_roles_application_role_id_application_roles"
          ("application_role_id" ∷ []) "application_roles" ("id" ∷ []) restrict
      ∷ [];
}

abbrev pub application_role_permissions_table : Table
application_role_permissions_table = record {
  name = "application_role_permissions";
  columns =
      column "application_role_id" uuid false none
      ∷ column "permission_id" uuid false none
      ∷ audit "created_at"
      ∷ [];
  constraints =
      primary_key "pk_application_role_permissions" ("application_role_id" ∷ "permission_id" ∷ [])
      ∷ foreign_key "fk_application_role_permissions_application_role_id_application_roles"
          ("application_role_id" ∷ []) "application_roles" ("id" ∷ []) cascade
      ∷ foreign_key "fk_application_role_permissions_permission_id_permissions"
          ("permission_id" ∷ []) "permissions" ("id" ∷ []) restrict
      ∷ [];
}

abbrev pub upgrade_authorization : List Statement
upgrade_authorization =
    create_table application_roles_table
    ∷ create_table permissions_table
    ∷ create_table user_application_roles_table
    ∷ create_index (
        index "ix_user_application_roles_application_role_id" "user_application_roles"
          ("application_role_id" ∷ []) false)
    ∷ create_table application_role_permissions_table
    ∷ create_index (
        index "ix_application_role_permissions_permission_id" "application_role_permissions"
          ("permission_id" ∷ []) false)
    ∷ []

abbrev pub downgrade_authorization : List Statement
downgrade_authorization =
    drop_index "ix_application_role_permissions_permission_id" "application_role_permissions"
    ∷ drop_table "application_role_permissions"
    ∷ drop_index "ix_user_application_roles_application_role_id" "user_application_roles"
    ∷ drop_table "user_application_roles"
    ∷ drop_table "permissions"
    ∷ drop_table "application_roles"
    ∷ []
