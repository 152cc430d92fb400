-- ===== src/Schema/Comparison.antt =====
-- Tests whether two columns, constraints or indexes of a catalog are the same.
use ketabdan_ms.Prelude.{
  ℕ, String, ◌≡◌, refl, ap, Bool, true, false, not, ◌&&◌, Option, none, some, List, [], ◌∷◌, arith,
  eq_iff, eqb, ◌==◌, nat_eq, string_eq, ==→≡, eqb_iff,
}
use ketabdan_ms.Schema.{
  Column, ColumnType, uuid, text, boolean, timestamptz, OnDelete, cascade, restrict, Constraint,
  primary_key, unique, check, foreign_key, Index, same_names,
}

abbrev type_code : ColumnType → ℕ
type_code uuid = 0
type_code text = 1
type_code boolean = 2
type_code timestamptz = 3

abbrev same_default : Option String → Option String → Bool
same_default none none = true
same_default (some a) (some b) = a == b
same_default _ _ = false

abbrev same_flag : Bool → Bool → Bool
same_flag true b = b
same_flag false b = not b

abbrev same_delete : OnDelete → OnDelete → Bool
same_delete cascade cascade = true
same_delete restrict restrict = true
same_delete _ _ = false

unfoldable pub same_column : Column → Column → Bool
same_column a b =
    (a.name == b.name)
    && eqb (type_code a.type) (type_code b.type)
    && same_flag a.nullable b.nullable
    && same_default a.server_default b.server_default

unfoldable pub same_constraint : Constraint → Constraint → Bool
same_constraint (primary_key n cols) (primary_key n' cols') = (n == n') && same_names cols cols'
same_constraint (unique n cols) (unique n' cols') = (n == n') && same_names cols cols'
same_constraint (check n e) (check n' e') = (n == n') && (e == e')
same_constraint (foreign_key n cols t refs d) (foreign_key n' cols' t' refs' d') =
    (n == n') && same_names cols cols' && (t == t') && same_names refs refs' && same_delete d d'
same_constraint _ _ = false

unfoldable pub same_index : Index → Index → Bool
same_index i j =
    (i.name == j.name)
    && (i.table == j.table)
    && same_names i.columns j.columns
    && same_flag i.is_unique j.is_unique

type_code-injective : (t t' : ColumnType) → type_code t ≡ type_code t' → t ≡ t'
type_code-injective uuid t' h = ground arith
type_code-injective text t' h = ground arith
type_code-injective boolean t' h = ground arith
type_code-injective timestamptz t' h = ground arith

same_default_sound : (a b : Option String) → same_default a b ≡ true → a ≡ b
same_default_sound none none h = refl
same_default_sound none (some b) h = cc
same_default_sound (some a) none h = cc
same_default_sound (some a) (some b) h = ap some (==→≡ a b h)

same_names_sound : (as' bs : List String) → same_names as' bs ≡ true → as' ≡ bs
same_names_sound [] [] h = refl
same_names_sound [] (b ∷ bs) h = cc
same_names_sound (a ∷ as') [] h = cc
same_names_sound (a ∷ as') (b ∷ bs) h = ground (arith, eq_iff a b, same_names_sound as' bs)

same_flag_sound : (a b : Bool) → same_flag a b ≡ true → a ≡ b
same_flag_sound a b h = ground arith

same_delete_sound : (d d' : OnDelete) → same_delete d d' ≡ true → d ≡ d'
same_delete_sound d d' h = ground arith

pub same_column_sound : (a b : Column) → same_column a b ≡ true → a ≡ b
unfolding same_column
same_column_sound a b h = ground (
  arith,
  eq_iff a.name b.name,
  type_code-injective a.type b.type,
  eqb_iff (type_code a.type) (type_code b.type),
  same_flag_sound a.nullable b.nullable,
  same_default_sound a.server_default b.server_default,
)

pub same_constraint_sound : (k k' : Constraint) → same_constraint k k' ≡ true → k ≡ k'
unfolding same_constraint
same_constraint_sound (primary_key n cols) (primary_key n' cols') h =
    ground (arith, eq_iff n n', same_names_sound cols cols')
same_constraint_sound (unique n cols) (unique n' cols') h =
    ground (arith, eq_iff n n', same_names_sound cols cols')
same_constraint_sound (check n e) (check n' e') h = ground (arith, eq_iff n n', eq_iff e e')
same_constraint_sound (foreign_key n cols t refs d) (foreign_key n' cols' t' refs' d') h = ground (
  arith,
  eq_iff n n',
  eq_iff t t',
  same_names_sound cols cols',
  same_names_sound refs refs',
  same_delete_sound d d',
)
same_constraint_sound k k' h = ground arith

pub same_index_sound : (i j : Index) → same_index i j ≡ true → i ≡ j
unfolding same_index
same_index_sound i j h = ground (
  arith,
  eq_iff i.name j.name,
  eq_iff i.table j.table,
  same_names_sound i.columns j.columns,
  same_flag_sound i.is_unique j.is_unique,
)
