-- ===== src/Seeds/Rows.antt =====
-- The rows that apps/api/alembic/versions/0002_seed_initial_roles.py,
-- 0003_seed_initial_responsibilities.py and 0005_add_application_authorization_tables.py insert.
use ketabdan_ms.Prelude.{ℕ, true, List, [], ◌∷◌, nat_eq, string_eq}
use ketabdan_ms.Store.{
  ApplicationRole, Permission, ApplicationRolePermission, Role, EventResponsibility,
}

abbrev pub seed_roles : List Role
seed_roles =
    record { id = 0xa3f5c2e17b4d4e8f9c1a2d6b8e4f0a71; code = "learner"; name = "Learner / Student" }
    ∷ record { id = 0xb7e2d9a43c5f4a1b8d9e6f0a2c4e6b83; code = "supporter"; name = "Supporter" }
    ∷ record { id = 0xc9d4f1b52a6e4c3d9e8f1b3d5f7a9c25; code = "coach"; name = "Coach" }
    ∷ record { id = 0xd2b6a3c78e4f4d2ca1b93e5c7d9f1b47; code = "teacher"; name = "Teacher" }
    ∷ record { id = 0xe5c8b1d94f7a4e6cb3d82f4a6c8e0d69; code = "referrer"; name = "Referrer" }
    ∷ record { id = 0xf1d3e5a76b9c4f8db2e44a6e8b0d2f8b; code = "manager"; name = "Manager" }
    ∷ []

abbrev pub seed_responsibilities : List EventResponsibility
seed_responsibilities =
    record {
      id = 0x3a1c5e7b9d4f4b6a8e2c7f0b4d6a2c84;
      code = "pre_introduction";
      name = "Pre-introduction";
      active = true;
    }
    ∷ record {
      id = 0x4b2d6f8c0e5a4c7b9f3d8a1c5e7b3d95;
      code = "welcome_reception";
      name = "Welcome / reception";
      active = true;
    }
    ∷ record {
      id = 0x5c3e7a9d1f6b4d8c8a4e9b2d6f8c4ea6;
      code = "technique_execution";
      name = "Technique execution";
      active = true;
    }
    ∷ record {
      id = 0x6d4f8bae2a7c4e9dab5fac3e7a9d5fb7;
      code = "persuasion";
      name = "Persuasion";
      active = true;
    }
    ∷ record {
      id = 0x7e5a9cbf3b8d4faebc6abd4f8bae6ac8;
      code = "registration";
      name = "Registration";
      active = true;
    }
    ∷ record {
      id = 0x8f6badc04c9e4abfcd7bce5a9cbf7bd9;
      code = "follow_up";
      name = "Follow-up";
      active = true;
    }
    ∷ []

abbrev pub admin_id : ℕ
admin_id = 0xd4a1f2b37c8e4f5a9b0c1e2d3f4a5b6c

abbrev pub manager_id : ℕ
manager_id = 0xe5b2a3c48d9f4a6b8c1d2f3a4b5c6d7e

abbrev pub operator_id : ℕ
operator_id = 0xf6c3b4d59e0a4b7c9d2e3a4b5c6d7e8f

abbrev roles_read_id : ℕ
roles_read_id = 0xb1d2e3f45a6b4c7d8e9f0a1b2c3d4e5f

abbrev people_read_id : ℕ
people_read_id = 0xc2e3f4a56b7c4d8e9f0a1b2c3d4e5f6a

abbrev people_create_id : ℕ
people_create_id = 0xd3f4a5b67c8d4e9f0a1b2c3d4e5f6a7b

abbrev events_read_id : ℕ
events_read_id = 0xe4a5b6c78d9e4f0a1b2c3d4e5f6a7b8c

abbrev events_create_id : ℕ
events_create_id = 0xf5b6c7d89e0a4a1b2c3d4e5f6a7b8c9d

abbrev assignments_read_id : ℕ
assignments_read_id = 0xa6c7d8e90f1a4b2c3d4e5f6a7b8c9d0e

abbrev assignments_create_id : ℕ
assignments_create_id = 0xb7d8e9f01a2b4c3d4e5f6a7b8c9d0e1f

abbrev pub seed_application_roles : List ApplicationRole
seed_application_roles =
    record { id = admin_id; code = "admin"; name = "Administrator" }
    ∷ record { id = manager_id; code = "manager"; name = "Manager" }
    ∷ record { id = operator_id; code = "operator"; name = "Operator" }
    ∷ []

abbrev pub seed_permissions : List Permission
seed_permissions =
    record { id = roles_read_id; code = "roles:read"; name = "Read reference roles" }
    ∷ record { id = people_read_id; code = "people:read"; name = "Read people" }
    ∷ record { id = people_create_id; code = "people:create"; name = "Create people" }
    ∷ record { id = events_read_id; code = "events:read"; name = "Read events" }
    ∷ record { id = events_create_id; code = "events:create"; name = "Create events" }
    ∷ record {
      id = assignments_read_id;
      code = "assignments:read";
      name = "Read event assignments";
    }
    ∷ record {
      id = assignments_create_id;
      code = "assignments:create";
      name = "Create event assignments";
    }
    ∷ []

abbrev pub seed_application_role_permissions : List ApplicationRolePermission
seed_application_role_permissions =
    record { application_role_id = admin_id; permission_id = roles_read_id }
    ∷ record { application_role_id = admin_id; permission_id = people_read_id }
    ∷ record { application_role_id = admin_id; permission_id = people_create_id }
    ∷ record { application_role_id = admin_id; permission_id = events_read_id }
    ∷ record { application_role_id = admin_id; permission_id = events_create_id }
    ∷ record { application_role_id = admin_id; permission_id = assignments_read_id }
    ∷ record { application_role_id = admin_id; permission_id = assignments_create_id }
    ∷ record { application_role_id = manager_id; permission_id = roles_read_id }
    ∷ record { application_role_id = manager_id; permission_id = people_read_id }
    ∷ record { application_role_id = manager_id; permission_id = people_create_id }
    ∷ record { application_role_id = manager_id; permission_id = events_read_id }
    ∷ record { application_role_id = manager_id; permission_id = events_create_id }
    ∷ record { application_role_id = manager_id; permission_id = assignments_read_id }
    ∷ record { application_role_id = manager_id; permission_id = assignments_create_id }
    ∷ record { application_role_id = operator_id; permission_id = roles_read_id }
    ∷ record { application_role_id = operator_id; permission_id = people_read_id }
    ∷ record { application_role_id = operator_id; permission_id = events_read_id }
    ∷ record { application_role_id = operator_id; permission_id = events_create_id }
    ∷ record { application_role_id = operator_id; permission_id = assignments_read_id }
    ∷ record { application_role_id = operator_id; permission_id = assignments_create_id }
    ∷ []
