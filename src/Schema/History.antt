-- ===== src/Schema/History.antt =====
-- The revisions of apps/api/alembic/versions in their order, and all of them run, which
-- apps/api/alembic/env.py does in one transaction.
use ketabdan_ms.Prelude.{
  String, Option, none, some, List, [], ◌∷◌, ◌++◌, nat_eq, string_eq, concat_map,
}
use ketabdan_ms.Schema.{Catalog, Statement, run}
use ketabdan_ms.Schema.Initial.{upgrade_initial, downgrade_initial}
use ketabdan_ms.Schema.Authorization.{
  upgrade_users, downgrade_users, upgrade_authorization, downgrade_authorization,
}

-- 0002 and 0003 have no statement on tables: their rows are in Seeds.
pub record Revision : Type 0 where
  pub revision : String
  pub down_revision : Option String
  pub upgrade_statements : List Statement
  pub downgrade_statements : List Statement

abbrev pub initial_revision : Revision
initial_revision = record {
  revision = "0001";
  down_revision = none;
  upgrade_statements = upgrade_initial;
  downgrade_statements = downgrade_initial;
}

abbrev pub roles_revision : Revision
roles_revision = record {
  revision = "0002";
  down_revision = some "0001";
  upgrade_statements = [];
  downgrade_statements = [];
}

abbrev pub responsibilities_revision : Revision
responsibilities_revision = record {
  revision = "0003";
  down_revision = some "0002";
  upgrade_statements = [];
  downgrade_statements = [];
}

abbrev pub users_revision : Revision
users_revision = record {
  revision = "0004";
  down_revision = some "0003";
  upgrade_statements = upgrade_users;
  downgrade_statements = downgrade_users;
}

abbrev pub authorization_revision : Revision
authorization_revision = record {
  revision = "0005";
  down_revision = some "0004";
  upgrade_statements = upgrade_authorization;
  downgrade_statements = downgrade_authorization;
}

abbrev pub history : List Revision
history =
    initial_revision ∷ roles_revision ∷ responsibilities_revision ∷ users_revision
    ∷ authorization_revision ∷ []

-- `alembic upgrade head` and `alembic downgrade base`
abbrev pub all_upgrades : List Revision → List Statement
all_upgrades revisions = concat_map (λ r. r.upgrade_statements) revisions

abbrev pub all_downgrades : List Revision → List Statement
all_downgrades [] = []
all_downgrades (r ∷ revisions) = all_downgrades revisions ++ r.downgrade_statements

unfoldable pub upgrade_head : Catalog → Option Catalog
upgrade_head c = run (all_upgrades history) c

unfoldable pub downgrade_base : Catalog → Option Catalog
downgrade_base c = run (all_downgrades history) c
