-- ===== src/Schema/Beside.antt =====
-- Statements that create do the same in a catalog that already has other tables.
use ketabdan_ms.Prelude.{
  String, ◌≡◌, refl, ap, Bool, true, false, not, ◌&&◌, ◌||◌, some, List, [], ◌∷◌, ◌++◌, arith, ◌==◌,
  nat_eq, string_eq, any, All, elem, concat_map,
}
use ketabdan_ms.Prelude.Membership.{any-append}
use ketabdan_ms.Schema.{
  Constraint, foreign_key, primary_key, unique, check, Table, Catalog, Statement, create_table,
  create_index, drop_index, drop_table, relation_names, taken, is_key, refers, has_columns,
  all_distinct, execute, run,
}
use ketabdan_ms.Schema.Undoing.{IsCreation, run-first}

-- The tables and indexes of both, those of the first in front.
abbrev pub beside : Catalog → Catalog → Catalog
beside d c = record { tables = d.tables ++ c.tables; indexes = d.indexes ++ c.indexes }

abbrev pub names : Statement → List String
names (create_table t) = relation_names t
names (create_index i) = i.name ∷ []
names _ = []

any-left {ℓ} :
    {A : Type ℓ} (p : A → Bool) (xs ys : List A) → any p xs ≡ true → any p (xs ++ ys) ≡ true
any-left p xs ys h = rw (any-append p xs ys, h) refl

module _ (c : Catalog) where
  taken-beside : (n : String) (d : Catalog) → taken n c ≡ false → taken n (beside d c) ≡ taken n d
  taken-beside n d h =
      let e = any-append (λ t. elem n (relation_names t)) d.tables c.tables in
      let e' = any-append (λ i. i.name == n) d.indexes c.indexes in ground arith

  taken-beside-names :
      (ns : List String) (d : Catalog)
      → any (λ n. taken n c) ns ≡ false
      → any (λ n. taken n (beside d c)) ns ≡ any (λ n. taken n d) ns
  taken-beside-names [] d h = refl
  taken-beside-names (n ∷ ns) d h =
      let ih = taken-beside-names ns d in
      rw (taken-beside n d (ground arith)) (ap (λ b. taken n d || b) (ih (ground arith)))

  refers-beside :
      (ts : List Table) (k : Constraint) → refers ts k ≡ true → refers (ts ++ c.tables) k ≡ true
  refers-beside ts (foreign_key m cols target cols' d) h =
      any-left (λ t. (t.name == target) && any (is_key cols') t.constraints) ts c.tables h
  refers-beside ts (primary_key m cols) h = refl
  refers-beside ts (unique m cols) h = refl
  refers-beside ts (check m e) h = refl

  all_refer-beside :
      (ts : List Table) (ks : List Constraint)
      → any (λ k. not (refers ts k)) ks ≡ false
      → any (λ k. not (refers (ts ++ c.tables) k)) ks ≡ false
  all_refer-beside ts [] h = refl
  all_refer-beside ts (k ∷ ks) h =
      let here = refers-beside ts k in let ih = all_refer-beside ts ks in ground arith

  execute-beside :
      (s : Statement) (d d' : Catalog)
      → IsCreation s
      → any (λ n. taken n c) (names s) ≡ false
      → execute s d ≡ some d'
      → execute s (beside d c) ≡ some (beside d' c)
  unfolding execute
  execute-beside (create_table t) d d' v apart h =
      let free : any (λ n. taken n d) (relation_names t) ≡ false = ground arith in
      let distinct : all_distinct (relation_names t) ≡ true = ground arith in
      let held : any (λ k. not (refers (t ∷ d.tables) k)) t.constraints ≡ false = ground arith in
      let e : d' ≡ record d { tables = t ∷ d.tables } = ground arith in
      rw
        (
          taken-beside-names (relation_names t) d apart,
          free,
          distinct,
          all_refer-beside (t ∷ d.tables) t.constraints held,
          e,
        )
        refl
  execute-beside (create_index i) d d' v apart h =
      let free : taken i.name d ≡ false = ground arith in
      let on : any (λ t. (t.name == i.table) && has_columns i.columns t) d.tables ≡ true =
        ground arith in
      let e : d' ≡ record d { indexes = i ∷ d.indexes } = ground arith in
      rw
        (
          taken-beside i.name d (ground arith),
          free,
          any-left (λ t. (t.name == i.table) && has_columns i.columns t) d.tables c.tables on,
          e,
        )
        refl
  execute-beside (drop_index n t) d d' v apart h = absurd v
  execute-beside (drop_table n) d d' v apart h = absurd v

  pub run-beside :
      (ss : List Statement) (d d' : Catalog)
      → All IsCreation ss
      → any (λ n. taken n c) (concat_map names ss) ≡ false
      → run ss d ≡ some d'
      → run ss (beside d c) ≡ some (beside d' c)
  unfolding run
  run-beside [] d d' v apart h = ap some (ap (λ (x : Catalog). beside x c) (ground arith))
  run-beside (s ∷ ss) d d' (v, vs) apart h =
      let (d1, e, h') = run-first s ss d d' h in
      let parts = any-append (λ n. taken n c) (names s) (concat_map names ss) in
      rw (execute-beside s d d1 v (ground arith) e, run) (run-beside ss d1 d' vs (ground arith) h')
