-- ===== src/Schema/Models.antt =====
-- What the classes of apps/api/app/models/*.py declare on the base_metadata.
use ketabdan_ms.Prelude.{String, true, some, List, [], ◌∷◌, map, nat_eq, string_eq, concat_map}
use ketabdan_ms.Schema.{text, timestamptz, cascade, restrict, Catalog}
use ketabdan_ms.Schema.Mapping.{
  Model, attribute, uuid_pk, created_at, timestamps, unique_text, active, reference, part_of_key,
  indexed, literal, one_of, table_of, indexes_of,
}

abbrev pub person_model : Model
person_model = record {
  tablename = "persons";
  checks = [];
  indexes = [];
  attributes =
      uuid_pk
      ∷ attribute "name" text
      ∷ record (attribute "phone" text) { nullable = true }
      ∷ active
      ∷ timestamps;
}

abbrev pub role_model : Model
role_model = record {
  tablename = "roles";
  checks = [];
  indexes = [];
  attributes = uuid_pk ∷ unique_text "code" ∷ unique_text "name" ∷ timestamps;
}

abbrev pub person_role_model : Model
person_role_model = record {
  tablename = "person_roles";
  checks = [];
  indexes = ("ix_person_roles_role_id", "role_id") ∷ [];
  attributes =
      part_of_key (reference "person_id" "persons" cascade)
      ∷ part_of_key (reference "role_id" "roles" restrict)
      ∷ created_at
      ∷ [];
}

abbrev pub event_status_values : List String
event_status_values = "DRAFT" ∷ "SCHEDULED" ∷ "IN_PROGRESS" ∷ "COMPLETED" ∷ "CANCELLED" ∷ []

abbrev pub event_model : Model
event_model = record {
  tablename = "events";
  checks = ("status_in_approved_set", one_of "status" event_status_values) ∷ [];
  indexes = [];
  attributes =
      uuid_pk
      ∷ attribute "title" text
      ∷ attribute "type" text
      ∷ indexed (attribute "planned_at" timestamptz)
      ∷ record (indexed (attribute "status" text)) { server_default = some (literal "DRAFT") }
      ∷ timestamps;
}

abbrev pub event_responsibility_model : Model
event_responsibility_model = record {
  tablename = "event_responsibilities";
  checks = [];
  indexes = [];
  attributes = uuid_pk ∷ unique_text "code" ∷ unique_text "name" ∷ active ∷ timestamps;
}

abbrev pub approval_status_values : List String
approval_status_values = "PENDING" ∷ "APPROVED" ∷ []

abbrev pub event_assignment_model : Model
event_assignment_model = record {
  tablename = "event_assignments";
  checks = ("approval_status_in_known_set", one_of "approval_status" approval_status_values) ∷ [];
  indexes = [];
  attributes =
      uuid_pk
      ∷ indexed (reference "event_id" "events" cascade)
      ∷ indexed (reference "person_id" "persons" cascade)
      ∷ indexed (reference "responsibility_id" "event_responsibilities" restrict)
      ∷ record (attribute "approval_status" text) { server_default = some (literal "PENDING") }
      ∷ timestamps;
}

abbrev pub event_report_model : Model
event_report_model = record {
  tablename = "event_reports";
  checks = [];
  indexes = [];
  attributes =
      uuid_pk
      ∷ record (reference "event_id" "events" cascade) { is_unique = true }
      ∷ indexed (reference "author_id" "persons" restrict)
      ∷ attribute "content" text
      ∷ timestamps;
}

abbrev pub user_model : Model
user_model = record {
  tablename = "users";
  checks = [];
  indexes = [];
  attributes =
      uuid_pk ∷ unique_text "username" ∷ attribute "password_hash" text ∷ active ∷ timestamps;
}

abbrev pub application_role_model : Model
application_role_model = record {
  tablename = "application_roles";
  checks = [];
  indexes = [];
  attributes = uuid_pk ∷ unique_text "code" ∷ unique_text "name" ∷ timestamps;
}

abbrev pub permission_model : Model
permission_model = record {
  tablename = "permissions";
  checks = [];
  indexes = [];
  attributes = uuid_pk ∷ unique_text "code" ∷ unique_text "name" ∷ timestamps;
}

abbrev pub user_application_role_model : Model
user_application_role_model = record {
  tablename = "user_application_roles";
  checks = [];
  indexes = ("ix_user_application_roles_application_role_id", "application_role_id") ∷ [];
  attributes =
      part_of_key (reference "user_id" "users" cascade)
      ∷ part_of_key (reference "application_role_id" "application_roles" restrict)
      ∷ created_at
      ∷ [];
}

abbrev pub application_role_permission_model : Model
application_role_permission_model = record {
  tablename = "application_role_permissions";
  checks = [];
  indexes = ("ix_application_role_permissions_permission_id", "permission_id") ∷ [];
  attributes =
      part_of_key (reference "application_role_id" "application_roles" cascade)
      ∷ part_of_key (reference "permission_id" "permissions" restrict)
      ∷ created_at
      ∷ [];
}

-- The order of the imports of `app.models`.
abbrev pub models : List Model
models =
    application_role_model ∷ application_role_permission_model ∷ event_model
    ∷ event_assignment_model ∷ event_report_model ∷ event_responsibility_model ∷ permission_model
    ∷ person_model ∷ person_role_model ∷ role_model ∷ user_model ∷ user_application_role_model ∷ []

-- `Base.base_metadata`
abbrev pub base_metadata : Catalog
base_metadata = record { tables = map table_of models; indexes = concat_map indexes_of models }
