-- ===== src/Schema.antt =====
-- The tables of the database: what the migrations under apps/api/alembic/versions do to the catalog,
-- statement by statement, and what apps/api/app/models and apps/api/app/db/base.py declare.
pub mod Closed
pub mod Undoing
pub mod Beside
pub mod Initial
pub mod Authorization
pub mod Models
pub mod Head
mod Comparison
pub mod Agreement
pub mod History
mod Tests
pub mod Mapping
use ketabdan_ms.Prelude.{
  ℕ, zero, suc, ◌+◌, ◌-◌, ◌*◌, ◌/◌, ◌%◌, ◌^◌, ◌≤◌, ◌<◌, String, ◌≡◌, refl, sym, ap, ◌∙◌, ◌≢◌, ◌↔◌,
  ◌⊎◌, inl, inr, Bool, true, false, not, ◌&&◌, ◌||◌, Option, none, some, List, [], ◌∷◌, ◌++◌, map,
  arith, eq_iff, ltb, leb, eqb, if◌then◌else◌, Bool-cases, Option-cases, ltb→lt, lt→ltb, leb→le, Eq,
  ◌==◌, nat_eq, string_eq, ==_refl, ==→≡, Result, ok, err, ◌>>=◌, >>=-eq-ok, length, length-append,
  find, keep, any, All, Any, elem, or_false, concat_map,
}

-- `sa.Uuid()`, `sa.Text()`, `sa.Boolean()` and `sa.DateTime(timezone=True)`
pub data ColumnType : Type 0 where
  uuid : ColumnType
  text : ColumnType
  boolean : ColumnType
  timestamptz : ColumnType

-- The default is an SQL expression.
pub record Column : Type 0 where
  pub name : String
  pub type : ColumnType
  pub nullable : Bool
  pub server_default : Option String

pub data OnDelete : Type 0 where
  cascade : OnDelete
  restrict : OnDelete

-- Each with its name first. A foreign key has its columns, the table and the columns it refers to.
pub data Constraint : Type 0 where
  primary_key : String → List String → Constraint
  unique : String → List String → Constraint
  check : String → String → Constraint
  foreign_key : String → List String → String → List String → OnDelete → Constraint

pub record Table : Type 0 where
  pub name : String
  pub columns : List Column
  pub constraints : List Constraint

pub record Index : Type 0 where
  pub name : String
  pub table : String
  pub columns : List String
  pub is_unique : Bool

pub record Catalog : Type 0 where
  pub tables : List Table
  pub indexes : List Index

-- `op.create_table`, `op.create_index`, `op.drop_index` (the index and its table), `op.drop_table`
pub data Statement : Type 0 where
  create_table : Table → Statement
  create_index : Index → Statement
  drop_index : String → String → Statement
  drop_table : String → Statement

-- Tables, indexes and the constraints that an index keeps share one space of names.
abbrev pub relation_name : Constraint → List String
relation_name (primary_key n cols) = n ∷ []
relation_name (unique n cols) = n ∷ []
relation_name (check n e) = []
relation_name (foreign_key n cols t cols' d) = []

abbrev pub relation_names : Table → List String
relation_names t = t.name ∷ concat_map relation_name t.constraints

abbrev pub taken : String → Catalog → Bool
taken n c = any (λ t. elem n (relation_names t)) c.tables || any (λ i. i.name == n) c.indexes

abbrev pub all_distinct : List String → Bool
all_distinct [] = true
all_distinct (n ∷ ns) = not (elem n ns) && all_distinct ns

abbrev pub same_names : List String → List String → Bool
same_names [] [] = true
same_names (a ∷ as') (b ∷ bs) = (a == b) && same_names as' bs
same_names _ _ = false

abbrev pub is_key : List String → Constraint → Bool
is_key cols (primary_key n cols') = same_names cols cols'
is_key cols (unique n cols') = same_names cols cols'
is_key cols _ = false

abbrev pub has_key : String → List String → List Table → Bool
has_key target cols tables = any (λ t. (t.name == target) && any (is_key cols) t.constraints) tables

-- A foreign key refers to a key of a table that is there.
abbrev pub refers : List Table → Constraint → Bool
refers tables (foreign_key n cols target cols' d) = has_key target cols' tables
refers tables _ = true

abbrev pub targets : String → Constraint → Bool
targets table (foreign_key n cols target cols' d) = target == table
targets table _ = false

abbrev pub has_column : String → Table → Bool
has_column n t = any (λ col. col.name == n) t.columns

abbrev pub has_columns : List String → Table → Bool
has_columns ns t = not (any (λ n. not (has_column n t)) ns)

-- What each statement does in PostgreSQL; `none` where it raises.
unfoldable pub execute : Statement → Catalog → Option Catalog
execute (create_table t) c =
    if any (λ n. taken n c) (relation_names t)
    then none
    else (if all_distinct (relation_names t)
        then (if any (λ k. not (refers (t ∷ c.tables) k)) t.constraints
            then none
            else some (record c { tables = t ∷ c.tables }))
        else none)
execute (create_index i) c =
    if taken i.name c
    then none
    else (if any (λ t. (t.name == i.table) && has_columns i.columns t) c.tables
        then some (record c { indexes = i ∷ c.indexes })
        else none)
execute (drop_index n table) c =
    if any (λ i. i.name == n) c.indexes
    then some (record c { indexes = keep (λ i. not (i.name == n)) c.indexes })
    else none
execute (drop_table n) c =
    let others = keep (λ t. not (t.name == n)) c.tables in
    if any (λ t. t.name == n) c.tables
    then (if any (λ t. any (targets n) t.constraints) others
        then none
        else some (record { tables = others; indexes = keep (λ i. not (i.table == n)) c.indexes }))
    else none

-- A migration is one transaction: nothing is left of one that raises.
unfoldable pub run : List Statement → Catalog → Option Catalog
run [] c = some c
run (s ∷ ss) c = elim (execute s c) [ none ↦ none | some c' ↦ run ss c' ]

abbrev pub empty : Catalog
empty = record { tables = []; indexes = [] }

-- `sa.Column(name, type, nullable=..., server_default=...)`
abbrev pub column : String → ColumnType → Bool → Option String → Column
column n t nullable default = record {
  name = n;
  type = t;
  nullable = nullable;
  server_default = default;
}

-- The columns `created_at` and `updated_at`
abbrev pub audit : String → Column
audit n = column n timestamptz false (some "now()")

-- `op.create_index(name, table, columns, unique=...)`
abbrev pub index : String → String → List String → Bool → Index
index n table cols is_unique = record {
  name = n;
  table = table;
  columns = cols;
  is_unique = is_unique;
}
