-- ===== src/Schema/Head.antt =====
-- What the database has after all migrations, and after they are taken back.
use ketabdan_ms.Prelude.{
  ◌≡◌, refl, sym, inl, inr, false, none, some, List, [], ◌∷◌, ◌++◌, arith, nat_eq, string_eq, any,
  All, concat_map,
}
use mathlib.Core.Path.{subst}
use mathlib.Core.List.{append-nil, append_assoc}
use ketabdan_ms.Schema.{Catalog, Statement, taken, execute, run, empty}
use ketabdan_ms.Schema.Closed.{IsClosed}
use ketabdan_ms.Schema.Undoing.{IsCreation, undo, undo_all, run-undo_all}
use ketabdan_ms.Schema.Beside.{names, beside, run-beside}
use ketabdan_ms.Schema.Agreement.{agree, Agree, agree-Agree, Member}
use ketabdan_ms.Schema.Mapping.{one_of}
use ketabdan_ms.Schema.Models.{base_metadata}
use ketabdan_ms.Schema.History.{Revision, history, all_upgrades, all_downgrades, upgrade_head}

abbrev pub created : Catalog
unfolding upgrade_head run execute
created = elim (upgrade_head empty) [ none ↦ empty | some d ↦ d ]

pub upgrade_head-created : upgrade_head empty ≡ some created
unfolding upgrade_head created
upgrade_head-created = refl

created-Agree : Agree created base_metadata
unfolding agree created one_of
created-Agree = agree-Agree created base_metadata refl

-- If no table and index of a catalog has a name that the migrations give, all of them run in it:
-- they leave what was there, and the tables and indexes that they add are those that the models
-- declare, with the columns, constraints and names of `base_metadata`, each table once.
pub upgrade_head-metadata :
    (c : Catalog)
    → any (λ n. taken n c) (concat_map names (all_upgrades history)) ≡ false
    → (d : Catalog) × (upgrade_head c ≡ some (beside d c)) × Agree d base_metadata
unfolding upgrade_head
upgrade_head-metadata c apart = (
  created,
  run-beside c (all_upgrades history) empty created creations apart upgrade_head-created,
  created-Agree,
)
  where
    creations : All IsCreation (all_upgrades history)
    creations = omega arith

abbrev Undone : Revision → Type 0
Undone r =
    (r.downgrade_statements ≡ undo_all r.upgrade_statements) × All IsCreation r.upgrade_statements

-- Each downgrade is its upgrade's statements undone in the reverse order.
history-Undone : (r : Revision) → Member r history → Undone r
history-Undone r (inl e) = subst Undone e (refl, omega arith)
history-Undone r (inr (inl e)) = subst Undone e (refl, tt)
history-Undone r (inr (inr (inl e))) = subst Undone e (refl, tt)
history-Undone r (inr (inr (inr (inl e)))) = subst Undone e (refl, omega arith)
history-Undone r (inr (inr (inr (inr (inl e))))) = subst Undone e (refl, omega arith)
history-Undone r (inr (inr (inr (inr (inr m))))) = absurd m

undo_all-append : (ss ss' : List Statement) → undo_all (ss ++ ss') ≡ undo_all ss' ++ undo_all ss
undo_all-append [] ss' = sym (append-nil (undo_all ss'))
undo_all-append (s ∷ ss) ss' =
    rw (undo_all-append ss ss') (append_assoc (undo_all ss') (undo_all ss) (undo s ∷ []))

All-append :
    (ss ss' : List Statement) → All IsCreation ss → All IsCreation ss' → All IsCreation (ss ++ ss')
All-append [] ss' v v' = v'
All-append (s ∷ ss) ss' (h, v) v' = (h, All-append ss ss' v v')

revisions-Undone :
    (revisions : List Revision)
    → All (λ r. Member r history) revisions
    → (all_downgrades revisions ≡ undo_all (all_upgrades revisions))
      × All IsCreation (all_upgrades revisions)
revisions-Undone [] v = (refl, tt)
revisions-Undone (r ∷ revisions) (m, v) =
    let (e, creations) = history-Undone r m in
    let (e', creations') = revisions-Undone revisions v in
    (
      rw (e', e) (sym (undo_all-append r.upgrade_statements (all_upgrades revisions))),
      All-append r.upgrade_statements (all_upgrades revisions) creations creations',
    )

-- Where foreign keys and indexes have their tables, the downgrades of any of the revisions, run in
-- the reverse order after their upgrades, succeed and give back the very catalog.
pub downgrade-upgrade :
    (revisions : List Revision) (c c' : Catalog)
    → All (λ r. Member r history) revisions
    → IsClosed c
    → run (all_upgrades revisions) c ≡ some c'
    → run (all_downgrades revisions) c' ≡ some c
downgrade-upgrade revisions c c' v closed h =
    let (e, creations) = revisions-Undone revisions v in
    rw e (run-undo_all (all_upgrades revisions) c c' closed creations h)
