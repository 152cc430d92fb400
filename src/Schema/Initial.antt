-- ===== src/Schema/Initial.antt =====
-- The statements of apps/api/alembic/versions/0001_initial_mvp_schema.py.
use ketabdan_ms.Prelude.{true, false, none, some, List, [], ◌∷◌, nat_eq, string_eq}
use ketabdan_ms.Schema.{
  uuid, text, boolean, timestamptz, cascade, restrict, primary_key, unique, check, foreign_key,
  Table, Statement, create_table, create_index, drop_index, drop_table, column, audit, index,
}

abbrev pub persons_table : Table
persons_table = record {
  name = "persons";
  columns =
      column "id" uuid false none
      ∷ column "name" text false none
      ∷ column "phone" text true none
      ∷ column "active" boolean false (some "true")
      ∷ audit "created_at"
      ∷ audit "updated_at"
      ∷ [];
  constraints = primary_key "pk_persons" ("id" ∷ []) ∷ [];
}

abbrev pub roles_table : Table
roles_table = record {
  name = "roles";
  columns =
      column "id" uuid false none
      ∷ column "code" text false none
      ∷ column "name" text false none
      ∷ audit "created_at"
      ∷ audit "updated_at"
      ∷ [];
  constraints =
      primary_key "pk_roles" ("id" ∷ [])
      ∷ unique "uq_roles_code" ("code" ∷ [])
      ∷ unique "uq_roles_name" ("name" ∷ [])
      ∷ [];
}

abbrev pub person_roles_table : Table
person_roles_table = record {
  name = "person_roles";
  columns =
      column "person_id" uuid false none
      ∷ column "role_id" uuid false none
      ∷ audit "created_at"
      ∷ [];
  constraints =
      foreign_key "fk_person_roles_person_id_persons" ("person_id" ∷ []) "persons" ("id" ∷ [])
        cascade
      ∷ foreign_key "fk_person_roles_role_id_roles" ("role_id" ∷ []) "roles" ("id" ∷ []) restrict
      ∷ primary_key "pk_person_roles" ("person_id" ∷ "role_id" ∷ [])
      ∷ [];
}

abbrev pub events_table : Table
events_table = record {
  name = "events";
  columns =
      column "id" uuid false none
      ∷ column "title" text false none
      ∷ column "type" text false none
      ∷ column "planned_at" timestamptz false none
      ∷ column "status" text false (some "'DRAFT'")
      ∷ audit "created_at"
      ∷ audit "updated_at"
      ∷ [];
  constraints =
      primary_key "pk_events" ("id" ∷ [])
      ∷ check "ck_events_status_in_approved_set"
          "status IN ('DRAFT', 'SCHEDULED', 'IN_PROGRESS', 'COMPLETED', 'CANCELLED')"
      ∷ [];
}

abbrev pub event_responsibilities_table : Table
event_responsibilities_table = record {
  name = "event_responsibilities";
  columns =
      column "id" uuid false none
      ∷ column "code" text false none
      ∷ column "name" text false none
      ∷ column "active" boolean false (some "true")
      ∷ audit "created_at"
      ∷ audit "updated_at"
      ∷ [];
  constraints =
      primary_key "pk_event_responsibilities" ("id" ∷ [])
      ∷ unique "uq_event_responsibilities_code" ("code" ∷ [])
      ∷ unique "uq_event_responsibilities_name" ("name" ∷ [])
      ∷ [];
}

abbrev pub event_assignments_table : Table
event_assignments_table = record {
  name = "event_assignments";
  columns =
      column "id" uuid false none
      ∷ column "event_id" uuid false none
      ∷ column "person_id" uuid false none
      ∷ column "responsibility_id" uuid false none
      ∷ column "approval_status" text false (some "'PENDING'")
      ∷ audit "created_at"
      ∷ audit "updated_at"
      ∷ [];
  constraints =
      primary_key "pk_event_assignments" ("id" ∷ [])
      ∷ check "ck_event_assignments_approval_status_in_known_set"
          "approval_status IN ('PENDING', 'APPROVED')"
      ∷ foreign_key "fk_event_assignments_event_id_events" ("event_id" ∷ []) "events" ("id" ∷ [])
          cascade
      ∷ foreign_key "fk_event_assignments_person_id_persons" ("person_id" ∷ []) "persons"
          ("id" ∷ []) cascade
      ∷ foreign_key "fk_event_assignments_responsibility_id_event_responsibilities"
          ("responsibility_id" ∷ []) "event_responsibilities" ("id" ∷ []) restrict
      ∷ [];
}

abbrev pub event_reports_table : Table
event_reports_table = record {
  name = "event_reports";
  columns =
      column "id" uuid false none
      ∷ column "event_id" uuid false none
      ∷ column "author_id" uuid false none
      ∷ column "content" text false none
      ∷ audit "created_at"
      ∷ audit "updated_at"
      ∷ [];
  constraints =
      primary_key "pk_event_reports" ("id" ∷ [])
      ∷ unique "uq_event_reports_event_id" ("event_id" ∷ [])
      ∷ foreign_key "fk_event_reports_event_id_events" ("event_id" ∷ []) "events" ("id" ∷ [])
          cascade
      ∷ foreign_key "fk_event_reports_author_id_persons" ("author_id" ∷ []) "persons" ("id" ∷ [])
          restrict
      ∷ [];
}

abbrev pub upgrade_initial : List Statement
upgrade_initial =
    create_table persons_table
    ∷ create_table roles_table
    ∷ create_table person_roles_table
    ∷ create_index (index "ix_person_roles_role_id" "person_roles" ("role_id" ∷ []) false)
    ∷ create_table events_table
    ∷ create_index (index "ix_events_planned_at" "events" ("planned_at" ∷ []) false)
    ∷ create_index (index "ix_events_status" "events" ("status" ∷ []) false)
    ∷ create_table event_responsibilities_table
    ∷ create_table event_assignments_table
    ∷ create_index
        (index "ix_event_assignments_event_id" "event_assignments" ("event_id" ∷ []) false)
    ∷ create_index
        (index "ix_event_assignments_person_id" "event_assignments" ("person_id" ∷ []) false)
    ∷ create_index (
        index "ix_event_assignments_responsibility_id" "event_assignments"
          ("responsibility_id" ∷ []) false)
    ∷ create_table event_reports_table
    ∷ create_index (index "ix_event_reports_author_id" "event_reports" ("author_id" ∷ []) false)
    ∷ []

abbrev pub downgrade_initial : List Statement
downgrade_initial =
    drop_index "ix_event_reports_author_id" "event_reports"
    ∷ drop_table "event_reports"
    ∷ drop_index "ix_event_assignments_responsibility_id" "event_assignments"
    ∷ drop_index "ix_event_assignments_person_id" "event_assignments"
    ∷ drop_index "ix_event_assignments_event_id" "event_assignments"
    ∷ drop_table "event_assignments"
    ∷ drop_table "event_responsibilities"
    ∷ drop_index "ix_events_status" "events"
    ∷ drop_index "ix_events_planned_at" "events"
    ∷ drop_table "events"
    ∷ drop_index "ix_person_roles_role_id" "person_roles"
    ∷ drop_table "person_roles"
    ∷ drop_table "roles"
    ∷ drop_table "persons"
    ∷ []
