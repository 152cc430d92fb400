-- ===== src/Seeds/Roles.antt =====
-- The seeded roles: running the insertion again, and creating people with them.
use ketabdan_ms.Prelude.{
  String, ◌≡◌, refl, sym, ap, ◌∙◌, inl, inr, Bool, true, ◌||◌, Option, none, some, List, [], ◌∷◌,
  ◌++◌, map, Bool-cases, ◌==◌, nat_eq, string_eq, ==_refl, ==→≡, any, All, elem,
}
use mathlib.Core.Path.{subst}
use ketabdan_ms.Store.{Role, Db}
use ketabdan_ms.Seeds.{seed_roles, insert_seed_roles, insert_all, with_rows}
use ketabdan_ms.Seeds.Inserts.{insert_all-Inserted}

abbrev same_code : Role → Role → Bool
same_code row x = x.code == row.code

abbrev against : Role → Role → Bool
against row x = (x.id == row.id) || (x.name == row.name)

with_rows-cases :
    (f : List Role → Db) (o : Option (List Role)) (db' : Db)
    → with_rows f o ≡ some db'
    → (rows : List Role) × (o ≡ some rows) × (f rows ≡ db')
with_rows-cases f none db' h = cc
with_rows-cases f (some rows) db' h = (rows, refl, cc)

found_code :
    (c : String) (rows table : List Role)
    → All (λ row. any (same_code row) table ≡ true) rows
    → elem c (map (λ r. r.code) rows) ≡ true
    → any (λ r. r.code == c) table ≡ true
found_code c [] table v h = cc
found_code c (row ∷ rows) table (first, v) h = elim (Bool-cases (row.code == c)) [
  | inl e ↦ ap (λ k. any (λ (r : Role). r.code == k) table) (sym (==→≡ row.code c e)) ∙ first
  | inr e ↦ found_code c rows table v (rw e at h)
]

abbrev pub Reseeded : String → Db → Db → Type 0
Reseeded c db db' =
    (any (λ r. r.code == c) db'.roles ≡ true)
    × (insert_seed_roles db' ≡ some db')
    × (new : List Role) × (db'.roles ≡ new ++ db.roles)

-- Seeding the roles where that does not raise keeps every role that was stored, leaves a role for
-- each of the six codes, and seeding again changes nothing.
insert_seed_roles-again :
    (db db' : Db) (c : String)
    → insert_seed_roles db ≡ some db'
    → elem c (map (λ r. r.code) seed_roles) ≡ true
    → Reseeded c db db'
insert_seed_roles-again db db' c h known =
    let (rows, e, same) =
      with_rows-cases (λ rows. record db { roles = rows })
        (insert_all same_code against seed_roles db.roles) db' h in
    let i =
      insert_all-Inserted same_code against seed_roles db.roles rows (λ row. ==_refl row.code) e in
    let at_rows : Reseeded c db (record db { roles = rows }) = (
      found_code c seed_roles rows i.present known,
      ap (λ o. with_rows (λ rows. record db { roles = rows }) o) i.again,
      i.new,
      i.kept,
    ) in
    subst (λ x. Reseeded c db x) same at_rows
