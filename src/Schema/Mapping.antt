-- ===== src/Schema/Mapping.antt =====
-- Mapped classes over apps/api/app/db/base.py: their tables, with the names that its naming
-- convention gives to constraints and indexes.
use ketabdan_ms.Prelude.{
  String, Bool, true, false, Option, none, some, List, [], ◌∷◌, ◌++◌, map, if◌then◌else◌, nat_eq,
  string_eq, keep, concat_map,
}
use Prim.Native.String.{◌++◌ as ◌+s◌}
use ketabdan_ms.Prelude.Text.{join}
use ketabdan_ms.Schema.{
  Column, ColumnType, uuid, text, boolean, timestamptz, OnDelete, Constraint, primary_key, unique,
  check, foreign_key, Table, Index,
}

-- `ForeignKey("<table>.<column>", ondelete=...)`
pub record Reference : Type 0 where
  pub table : String
  pub column : String
  pub on_delete : OnDelete

-- `mapped_column(...)` of one attribute.
pub record Attribute : Type 0 where
  pub name : String
  pub type : ColumnType
  pub nullable : Bool
  pub server_default : Option String
  pub is_primary : Bool
  pub is_unique : Bool
  pub is_indexed : Bool
  pub references : Option Reference

-- A mapped class: its table, its check constraints and indexes of `__table_args__`, its attributes.
pub record Model : Type 0 where
  pub tablename : String
  pub checks : List (String × String)
  pub indexes : List (String × String)
  pub attributes : List Attribute

abbrev pub attribute : String → ColumnType → Attribute
attribute n t = record {
  name = n;
  type = t;
  nullable = false;
  server_default = none;
  is_primary = false;
  is_unique = false;
  is_indexed = false;
  references = none;
}

-- The naming convention
abbrev pub pk_name : String → String
pk_name table = "pk_" +s table

abbrev pub uq_name : String → String → String
uq_name table col = "uq_" +s table +s "_" +s col

abbrev pub ck_name : String → String → String
ck_name table constraint = "ck_" +s table +s "_" +s constraint

abbrev pub fk_name : String → String → String → String
fk_name table col referred = "fk_" +s table +s "_" +s col +s "_" +s referred

abbrev pub ix_name : String → String → String
ix_name table col = "ix_" +s table +s "_" +s col

abbrev pub uuid_pk : Attribute
uuid_pk = record (attribute "id" uuid) { is_primary = true }

abbrev pub created_at : Attribute
created_at = record (attribute "created_at" timestamptz) { server_default = some "now()" }

abbrev pub timestamps : List Attribute
timestamps =
    created_at ∷ record (attribute "updated_at" timestamptz) { server_default = some "now()" } ∷ []

abbrev pub unique_text : String → Attribute
unique_text n = record (attribute n text) { is_unique = true }

abbrev pub active : Attribute
active = record (attribute "active" boolean) { server_default = some "true" }

abbrev pub reference : String → String → OnDelete → Attribute
reference n table d = record (attribute n uuid) {
  references = some (record { table = table; column = "id"; on_delete = d });
}

abbrev pub part_of_key : Attribute → Attribute
part_of_key a = record a { is_primary = true }

abbrev pub indexed : Attribute → Attribute
indexed a = record a { is_indexed = true }

-- A text as an SQL literal, and the check that a column has one of some values.
abbrev pub literal : String → String
literal s = "'" +s s +s "'"

unfoldable pub one_of : String → List String → String
unfolding join
one_of col values = col +s " IN (" +s join ", " (map literal values) +s ")"

abbrev column_of : Attribute → Column
column_of a = record {
  name = a.name;
  type = a.type;
  nullable = a.nullable;
  server_default = a.server_default;
}

abbrev unique_of : String → Attribute → List Constraint
unique_of table a = if a.is_unique then unique (uq_name table a.name) (a.name ∷ []) ∷ [] else []

abbrev reference_of : String → String → Option Reference → List Constraint
reference_of table col none = []
reference_of table col (some r) =
    foreign_key (fk_name table col r.table) (col ∷ []) r.table (r.column ∷ []) r.on_delete ∷ []

abbrev index_of : String → Attribute → List Index
index_of table a =
    if a.is_indexed
    then record {
      name = ix_name table a.name;
      table = table;
      columns = a.name ∷ [];
      is_unique = false;
    }
      ∷ []
    else []

-- The table and the indexes of a mapped class.
abbrev pub table_of : Model → Table
table_of m = record {
  name = m.tablename;
  columns = map column_of m.attributes;
  constraints =
      primary_key (pk_name m.tablename) (map (λ a. a.name) (keep (λ a. a.is_primary) m.attributes))
        ∷ concat_map (unique_of m.tablename) m.attributes
      ++ map (λ (c : String × String). check (ck_name m.tablename c.0) c.1) m.checks
      ++ concat_map (λ a. reference_of m.tablename a.name a.references) m.attributes;
}

abbrev pub indexes_of : Model → List Index
indexes_of m =
    concat_map (index_of m.tablename) m.attributes
    ++ map
        (λ (i : String × String). record {
          name = i.0;
          table = m.tablename;
          columns = i.1 ∷ [];
          is_unique = false;
        })
        m.indexes
