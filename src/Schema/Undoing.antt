-- ===== src/Schema/Undoing.antt =====
-- Statements that create, undone in the reverse order, for every catalog whose references hold.
use ketabdan_ms.Prelude.{
  String, ◌≡◌, refl, sym, ap, ◌∙◌, inl, inr, true, false, not, ◌&&◌, some, List, [], ◌∷◌, ◌++◌,
  arith, Bool-cases, Option-cases, ◌==◌, nat_eq, string_eq, ==_refl, ==→≡, any, All,
}
use mathlib.Core.Path.{subst}
use mathlib.Core.Bool.{true≢false}
use ketabdan_ms.Prelude.Membership.{All-map}
use ketabdan_ms.Schema.{
  Table, Index, Catalog, Statement, create_table, create_index, drop_index, drop_table, taken,
  has_columns, refers, targets, execute, run,
}
use ketabdan_ms.Schema.Closed.{
  has_table, IsClosed, keep-eq_self, any-of-All, untaken-table, no-target, refers-more,
  has_table-more, All-of-any,
}

abbrev pub IsCreation : Statement → Type 0
IsCreation (create_table t) = Unit
IsCreation (create_index i) = Unit
IsCreation _ = ⊥

abbrev pub undo : Statement → Statement
undo (create_table t) = drop_table t.name
undo (create_index i) = drop_index i.name i.table
undo s = s

-- In the reverse order.
abbrev pub undo_all : List Statement → List Statement
undo_all [] = []
undo_all (s ∷ ss) = undo_all ss ++ undo s ∷ []

created-table :
    (t : Table) (c c' : Catalog)
    → execute (create_table t) c ≡ some c'
    → (c' ≡ record c { tables = t ∷ c.tables })
      × (taken t.name c ≡ false)
      × (any (λ k. not (refers (t ∷ c.tables) k)) t.constraints ≡ false)
unfolding execute
created-table t c c' h = (ground arith, ground arith, ground arith)

created-index :
    (i : Index) (c c' : Catalog)
    → execute (create_index i) c ≡ some c'
    → (c' ≡ record c { indexes = i ∷ c.indexes })
      × (taken i.name c ≡ false)
      × (has_table i.table c ≡ true)
unfolding execute
created-index i c c' h =
    (ground arith, ground arith, on_table i.table i.columns c.tables (ground arith))
  where
    on_table :
        (n : String) (cols : List String) (ts : List Table)
        → any (λ t. (t.name == n) && has_columns cols t) ts ≡ true
        → any (λ t. t.name == n) ts ≡ true
    on_table n cols [] h = h
    on_table n cols (t ∷ ts) h = ground (arith, on_table n cols ts)

module _ {c : Catalog} (closed : IsClosed c) where
  -- What a closed catalog has for a name that is not taken: nothing is about it.
  untaken-unused :
      (n : String)
      → taken n c ≡ false
      → (has_table n c ≡ false)
        × (any (λ t. any (targets n) t.constraints) c.tables ≡ false)
        × (any (λ i. i.table == n) c.indexes ≡ false)
        × (any (λ i. i.name == n) c.indexes ≡ false)
  untaken-unused n h =
      let no_table = untaken-table n c.tables (ground arith) in
      (
        no_table,
        any-of-All (λ t. All (λ k. refers c.tables k ≡ true) t.constraints)
            (λ t. any (targets n) t.constraints)
            (λ t v.
              any-of-All (λ k. refers c.tables k ≡ true) (targets n)
                (λ k r. no-target n c.tables k no_table r) t.constraints v)
            c.tables closed.references,
        any-of-All (λ i. has_table i.table c ≡ true) (λ i. i.table == n)
            (λ i r. elim (Bool-cases (i.table == n)) [
              | inl e ↦
                  absurd
                    (true≢false (sym r ∙ ap (λ x. has_table x c) (==→≡ i.table n e) ∙ no_table))
              | inr e ↦ e
            ])
            c.indexes closed.indexed,
        ground arith,
      )

  execute-undo :
      (s : Statement) (c' : Catalog)
      → IsCreation s
      → execute s c ≡ some c'
      → execute (undo s) c' ≡ some c
  unfolding execute
  execute-undo (create_table t) c' v h =
      let (e, free, held) = created-table t c c' h in
      let (no_table, no_target', no_index, _) = untaken-unused t.name free in
      rw
        (
          e,
          ==_refl t.name,
          keep-eq_self (λ x. x.name == t.name) c.tables no_table,
          no_target',
          keep-eq_self (λ i. i.table == t.name) c.indexes no_index,
        )
        refl
  execute-undo (create_index i) c' v h =
      let (e, free, on) = created-index i c c' h in
      let (_, _, _, no_index) = untaken-unused i.name free in
      rw (e, ==_refl i.name, keep-eq_self (λ x. x.name == i.name) c.indexes no_index) refl
  execute-undo (drop_index n t) c' v h = absurd v
  execute-undo (drop_table n) c' v h = absurd v

  execute-IsClosed :
      (s : Statement) (c' : Catalog) → IsCreation s → execute s c ≡ some c' → IsClosed c'
  unfolding execute
  execute-IsClosed (create_table t) c' v h =
      let (e, free, held) = created-table t c c' h in
      subst IsClosed (sym e) (record {
        references = (
          All-of-any (refers (t ∷ c.tables)) t.constraints held,
          All-map (λ x v. All-map (refers-more t c.tables) x.constraints v) c.tables
              closed.references,
        );
        indexed = All-map (λ i. has_table-more t c i.table) c.indexes closed.indexed;
      })
  execute-IsClosed (create_index i) c' v h =
      let (e, free, on) = created-index i c c' h in
      subst IsClosed (sym e)
        (record { references = closed.references; indexed = (on, closed.indexed) })
  execute-IsClosed (drop_index n t) c' v h = absurd v
  execute-IsClosed (drop_table n) c' v h = absurd v

pub run-first :
    (s : Statement) (ss : List Statement) (c c' : Catalog)
    → run (s ∷ ss) c ≡ some c'
    → (c1 : Catalog) × (execute s c ≡ some c1) × (run ss c1 ≡ some c')
unfolding run
run-first s ss c c' h = elim (Option-cases (execute s c)) [
  | inl e ↦ (let h' = rw (e, run) at h in cc)
  | inr (c1, e) ↦ (c1, e, rw (e, run) at h)
]

pub run-append :
    (ss ss' : List Statement) (c c' : Catalog) → run ss c ≡ some c' → run (ss ++ ss') c ≡ run ss' c'
unfolding run
run-append [] ss' c c' h = ap (run ss') (ground arith)
run-append (s ∷ ss) ss' c c' h =
    let (c1, e, h') = run-first s ss c c' h in rw (e, run) (run-append ss ss' c1 c' h')

pub run-undo_all :
    (ss : List Statement) (c c' : Catalog)
    → IsClosed c
    → All IsCreation ss
    → run ss c ≡ some c'
    → run (undo_all ss) c' ≡ some c
unfolding run
run-undo_all [] c c' closed v h = ground arith
run-undo_all (s ∷ ss) c c' closed (v, vs) h =
    let (c1, e, h') = run-first s ss c c' h in
    let undone = run-undo_all ss c1 c' (execute-IsClosed closed s c1 v e) vs h' in
    run-append (undo_all ss) (undo s ∷ []) c' c1 undone
    ∙ rw (execute-undo closed s c1 v e, run) refl

run-IsClosed :
    (ss : List Statement) (c c' : Catalog)
    → IsClosed c
    → All IsCreation ss
    → run ss c ≡ some c'
    → IsClosed c'
unfolding run
run-IsClosed [] c c' closed v h = subst IsClosed (ground arith) closed
run-IsClosed (s ∷ ss) c c' closed (v, vs) h =
    let (c1, e, h') = run-first s ss c c' h in
    run-IsClosed ss c1 c' (execute-IsClosed closed s c1 v e) vs h'
