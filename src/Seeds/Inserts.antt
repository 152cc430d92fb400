-- ===== src/Seeds/Inserts.antt =====
-- What an insertion that skips conflicts does to a table, for every list of rows.
use ketabdan_ms.Prelude.{
  ◌≡◌, refl, sym, ap, ◌∙◌, inl, inr, Bool, true, Option, none, some, List, [], ◌∷◌, ◌++◌, arith,
  Bool-cases, nat_eq, string_eq, any, All,
}
use ketabdan_ms.Seeds.{insert_row, insert_all}

module _ {A : Type 0} (conflicts violates : A → A → Bool) where
  -- The rows that were there stay, in their order, below the new ones; each row to insert has a row
  -- with its key, and inserting all of them again changes nothing.
  pub record Inserted (rows table table' : List A) : Type 0 where
    pub new : List A
    pub kept : table' ≡ new ++ table
    pub present : All (λ row. any (conflicts row) table' ≡ true) rows
    pub again : insert_all conflicts violates rows table' ≡ some table'

  any-below : (p : A → Bool) (new table : List A) → any p table ≡ true → any p (new ++ table) ≡ true
  any-below p [] table h = h
  any-below p (x ∷ new) table h = let ih = any-below p new table h in ground arith

  present-again :
      (rows table : List A)
      → All (λ row. any (conflicts row) table ≡ true) rows
      → insert_all conflicts violates rows table ≡ some table
  present-again [] table v = refl
  present-again (row ∷ rows) table (h, v) = rw (insert_all, h) (present-again rows table v)

  record Placed (row : A) (table table' : List A) : Type 0 where
    new : List A
    kept : table' ≡ new ++ table
    present : any (conflicts row) table' ≡ true

  row-Placed :
      (row : A) (table table' : List A)
      → conflicts row row ≡ true
      → insert_row conflicts violates row table ≡ some table'
      → Placed row table table'
  row-Placed row table table' self h = elim (Bool-cases (any (conflicts row) table)) [
    | inl e ↦
        (let h' = rw e at h in
          let same : (table ≡ table') = cc in
          record { new = []; kept = sym same; present = rw (sym same) e })
    | inr e ↦ elim (Bool-cases (any (violates row) table)) [
      | inl e' ↦ (let h' = rw (e, e') at h in cc)
      | inr e' ↦
          (let h' = rw (e, e') at h in
            let same : (row ∷ table ≡ table') = cc in
            record { new = row ∷ []; kept = sym same; present = rw (sym same, self) refl })
    ]
  ]

  rows-cases :
      (rows : List A) (o : Option (List A)) (table' : List A)
      → elim o [ none ↦ none | some t ↦ insert_all conflicts violates rows t ] ≡ some table'
      → (middle : List A) × (o ≡ some middle)
        × (insert_all conflicts violates rows middle ≡ some table')
  rows-cases rows none table' h = cc
  rows-cases rows (some middle) table' h = (middle, refl, h)

  append_assoc : (a b c : List A) → (a ++ b) ++ c ≡ a ++ (b ++ c)
  append_assoc [] b c = refl
  append_assoc (x ∷ a) b c = ap (λ l. x ∷ l) (append_assoc a b c)

  placed-All :
      (rows table table' : List A)
      → ((row : A) → conflicts row row ≡ true)
      → insert_all conflicts violates rows table ≡ some table'
      → (new : List A) × (table' ≡ new ++ table)
        × All (λ row. any (conflicts row) table' ≡ true) rows
  placed-All [] table table' self h = let same : (table ≡ table') = cc in ([], sym same, tt)
  placed-All (row ∷ rows) table table' self h =
      let (middle, e, rest) = rows-cases rows (insert_row conflicts violates row table) table' h in
      let first = row-Placed row table middle (self row) e in
      let (new, kept, present) = placed-All rows middle table' self rest in
      (
        new ++ first.new,
        kept ∙ ap (λ t. new ++ t) first.kept ∙ sym (append_assoc new first.new table),
        (rw kept (any-below (conflicts row) new middle first.present), present),
      )

  -- An insertion that does not raise keeps every row that was there, leaves no row to insert without a
  -- stored row of its key, and changes nothing the second time, if a row has its own key.
  pub insert_all-Inserted :
      (rows table table' : List A)
      → ((row : A) → conflicts row row ≡ true)
      → insert_all conflicts violates rows table ≡ some table'
      → Inserted rows table table'
  insert_all-Inserted rows table table' self h =
      let (new, kept, present) = placed-All rows table table' self h in
      record {
        new = new;
        kept = kept;
        present = present;
        again = present-again rows table' present;
      }
