-- ===== src/Schema/Tests.antt =====
-- The theorems of the schema at concrete catalogs.
use ketabdan_ms.Prelude.{
  ◌≡◌, refl, inl, inr, true, false, none, some, [], ◌∷◌, map, nat_eq, string_eq, All, Any,
}
use ketabdan_ms.Schema.{
  uuid, primary_key, foreign_key, cascade, Catalog, run, execute, empty, column,
}
use ketabdan_ms.Schema.Closed.{IsClosed}
use ketabdan_ms.Schema.Beside.{beside}
use ketabdan_ms.Schema.Agreement.{Agree}
use ketabdan_ms.Schema.Models.{base_metadata}
use ketabdan_ms.Schema.History.{history, all_upgrades, all_downgrades, upgrade_head}
use ketabdan_ms.Schema.Head.{upgrade_head-metadata, downgrade-upgrade}

-- alembic's own table, and a table of another program with a reference to itself.
abbrev shared : Catalog
shared = record {
  tables =
      record {
        name = "alembic_version";
        columns = [];
        constraints = primary_key "alembic_version_pkc" ("version_num" ∷ []) ∷ [];
      }
      ∷ record {
        name = "nodes";
        columns = column "id" uuid false none ∷ column "parent" uuid true none ∷ [];
        constraints =
            primary_key "nodes_pkey" ("id" ∷ [])
            ∷ foreign_key "nodes_parent" ("parent" ∷ []) "nodes" ("id" ∷ []) cascade
            ∷ [];
      }
      ∷ [];
  indexes =
      record {
        name = "nodes_by_parent";
        table = "nodes";
        columns = "parent" ∷ [];
        is_unique = false;
      }
      ∷ [];
}

upgrade_head-metadata_example :
    (d : Catalog) × (upgrade_head shared ≡ some (beside d shared)) × Agree d base_metadata
upgrade_head-metadata_example = upgrade_head-metadata shared refl

abbrev after_head : Catalog
unfolding upgrade_head run execute
after_head = elim (upgrade_head shared) [ none ↦ empty | some d ↦ d ]

shared-IsClosed : IsClosed shared
shared-IsClosed = record {
  references = ((refl, tt), ((refl, (refl, tt)), tt));
  indexed = (refl, tt);
}

history-runs : run (all_upgrades history) shared ≡ some after_head
unfolding after_head
history-runs = refl

all_revisions : All (λ r. Any (λ x. x ≡ r) history) history
all_revisions = (
  inl refl,
  (
    inr (inl refl),
    (inr (inr (inl refl)), (inr (inr (inr (inl refl))), (inr (inr (inr (inr (inl refl)))), tt))),
  ),
)

downgrade-upgrade_example : run (all_downgrades history) after_head ≡ some shared
downgrade-upgrade_example =
    downgrade-upgrade history shared after_head all_revisions shared-IsClosed history-runs

-- A table in the way, with a name of theirs: the migrations raise.
name_in_the_way :
    upgrade_head
      (record empty { tables = record { name = "users"; columns = []; constraints = [] } ∷ [] })
    ≡ none
unfolding upgrade_head run execute
name_in_the_way = refl

-- `down_revision` leads from each revision to the one before.
history-linear :
    map (λ r. r.down_revision) history
    ≡ none ∷ some "0001" ∷ some "0002" ∷ some "0003" ∷ some "0004" ∷ []
history-linear = refl
