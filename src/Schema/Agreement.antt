-- ===== src/Schema/Agreement.antt =====
-- When two catalogs are the same up to the order of what they list, and a test for it.
use ketabdan_ms.Prelude.{
  ◌≡◌, ◌↔◌, inl, inr, Bool, true, false, not, ◌&&◌, List, [], ◌∷◌, map, arith, Bool-cases, ◌==◌,
  nat_eq, string_eq, ==→≡, any, All, Any,
}
use mathlib.Core.Path.{subst}
use ketabdan_ms.Schema.Comparison.{
  same_column, same_constraint, same_index, same_column_sound, same_constraint_sound,
  same_index_sound,
}
use ketabdan_ms.Schema.{Table, Catalog, all_distinct}

abbrev pub Member : {A : Type 0} → A → List A → Type 0
Member a xs = Any (λ x. x ≡ a) xs

-- The same items, in any order.
abbrev pub SameItems : {A : Type 0} → List A → List A → Type 0
SameItems {A} xs ys = (a : A) → Member a xs ↔ Member a ys

pub record Describes (t t' : Table) : Type 0 where
  pub name : t.name ≡ t'.name
  pub columns : SameItems t.columns t'.columns
  pub constraints : SameItems t.constraints t'.constraints

-- Each table of one is described by a table of the other, and the indexes are the same.
pub record Agree (c c' : Catalog) : Type 0 where
  pub distinct : all_distinct (map (λ t. t.name) c.tables) ≡ true
  pub described : All (λ t. Any (Describes t) c'.tables) c.tables
  pub declared : All (λ t'. Any (λ t. Describes t t') c.tables) c'.tables
  pub indexes : SameItems c.indexes c'.indexes

module _ {A : Type 0} (same : A → A → Bool) where
  abbrev all_in : List A → List A → Bool
  all_in xs ys = not (any (λ x. not (any (λ y. same y x) ys)) xs)

  unfoldable pub same_items : List A → List A → Bool
  same_items xs ys = all_in xs ys && all_in ys xs

  module _ (sound : (a b : A) → same a b ≡ true → a ≡ b) where
    any-Member : (a : A) (xs : List A) → any (λ x. same x a) xs ≡ true → Member a xs
    any-Member a [] h = cc
    any-Member a (x ∷ xs) h = elim (Bool-cases (same x a)) [
      | inl e ↦ inl (sound x a e)
      | inr e ↦ inr (any-Member a xs (rw e at h))
    ]

    included : (xs ys : List A) (a : A) → all_in xs ys ≡ true → Member a xs → Member a ys
    included [] ys a h m = absurd m
    included (x ∷ xs) ys a h (inl e) = subst (λ z. Member z ys) e (any-Member x ys (ground arith))
    included (x ∷ xs) ys a h (inr m) = included xs ys a (ground arith) m

    pub same_items-SameItems : (xs ys : List A) → same_items xs ys ≡ true → SameItems xs ys
    unfolding same_items
    same_items-SameItems xs ys h a =
        (included xs ys a (ground arith), included ys xs a (ground arith))

pub describes : Table → Table → Bool
unfolding same_column same_constraint same_items
describes t t' =
    (t.name == t'.name)
    && same_items same_column t.columns t'.columns
    && same_items same_constraint t.constraints t'.constraints

unfoldable pub agree : Catalog → Catalog → Bool
unfolding describes same_index same_items
agree c c' =
    all_distinct (map (λ t. t.name) c.tables)
    && not (any (λ t. not (any (describes t) c'.tables)) c.tables)
    && not (any (λ t'. not (any (λ t. describes t t') c.tables)) c'.tables)
    && same_items same_index c.indexes c'.indexes

describes-Describes : (t t' : Table) → describes t t' ≡ true → Describes t t'
unfolding describes
describes-Describes t t' h = record {
  name = ==→≡ t.name t'.name (ground arith);
  columns = same_items-SameItems same_column same_column_sound t.columns t'.columns (ground arith);
  constraints =
      same_items-SameItems same_constraint same_constraint_sound t.constraints t'.constraints
        (ground arith);
}

any-Any :
    {A : Type 0} (p : A → Bool) (P : A → Type 0)
    → ((a : A) → p a ≡ true → P a)
    → (xs : List A) → any p xs ≡ true
    → Any P xs
any-Any p P f [] h = cc
any-Any p P f (x ∷ xs) h = elim (Bool-cases (p x)) [
  | inl e ↦ inl (f x e)
  | inr e ↦ inr (any-Any p P f xs (rw e at h))
]

all-All :
    {A : Type 0} (p : A → Bool) (P : A → Type 0)
    → ((a : A) → p a ≡ true → P a)
    → (xs : List A) → any (λ x. not (p x)) xs ≡ false
    → All P xs
all-All p P f [] h = tt
all-All p P f (x ∷ xs) h = (f x (ground arith), all-All p P f xs (ground arith))

pub agree-Agree : (c c' : Catalog) → agree c c' ≡ true → Agree c c'
unfolding agree
agree-Agree c c' h = record {
  distinct = ground arith;
  described =
      all-All (λ t. any (describes t) c'.tables) (λ t. Any (Describes t) c'.tables)
        (λ t. any-Any (describes t) (Describes t) (describes-Describes t) c'.tables) c.tables
        (ground arith);
  declared =
      all-All (λ t'. any (λ t. describes t t') c.tables) (λ t'. Any (λ t. Describes t t') c.tables)
        (λ t'.
          any-Any (λ t. describes t t') (λ t. Describes t t') (λ t. describes-Describes t t')
            c.tables)
        c'.tables (ground arith);
  indexes = same_items-SameItems same_index same_index_sound c.indexes c'.indexes (ground arith);
}
