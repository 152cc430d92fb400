-- ===== src/Store.antt =====
-- apps/api/app/models: the tables. A row's id (`uuid_pk`) is a number; the audit timestamps
-- (`TimestampMixin`) are left out. The unique constraints are kept by the services' checks.
use ketabdan_ms.Prelude.{ℕ, String, Bool, Option, List, nat_eq, string_eq}

pub record User : Type 0 where
  pub id : ℕ
  pub username : String
  pub password_hash : String
  pub active : Bool

pub record ApplicationRole : Type 0 where
  pub id : ℕ
  pub code : String
  pub name : String

pub record Permission : Type 0 where
  pub id : ℕ
  pub code : String
  pub name : String

pub record ApplicationRolePermission : Type 0 where
  pub application_role_id : ℕ
  pub permission_id : ℕ

pub record UserApplicationRole : Type 0 where
  pub user_id : ℕ
  pub application_role_id : ℕ

-- The branch's own roles; nothing links them to `ApplicationRole`.
pub record Role : Type 0 where
  pub id : ℕ
  pub code : String
  pub name : String

pub record Person : Type 0 where
  pub id : ℕ
  pub name : String
  pub phone : Option String
  pub active : Bool

pub record PersonRole : Type 0 where
  pub person_id : ℕ
  pub role_id : ℕ

-- `planned_at` is an instant: the microseconds since some fixed one.
pub record Event : Type 0 where
  pub id : ℕ
  pub title : String
  pub type : String
  pub planned_at : ℕ
  pub status : String

pub record EventResponsibility : Type 0 where
  pub id : ℕ
  pub code : String
  pub name : String
  pub active : Bool

pub record EventAssignment : Type 0 where
  pub id : ℕ
  pub event_id : ℕ
  pub person_id : ℕ
  pub responsibility_id : ℕ
  pub approval_status : String

pub record Db : Type 0 where
  pub users : List User
  pub application_roles : List ApplicationRole
  pub permissions : List Permission
  pub application_role_permissions : List ApplicationRolePermission
  pub user_application_roles : List UserApplicationRole
  pub roles : List Role
  pub persons : List Person
  pub person_roles : List PersonRole
  pub events : List Event
  pub event_responsibilities : List EventResponsibility
  pub event_assignments : List EventAssignment

-- The model defaults of `Event.status` and `EventAssignment.approval_status`
abbrev pub draft : String
draft = "DRAFT"

abbrev pub pending : String
pending = "PENDING"
