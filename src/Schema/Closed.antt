-- ===== src/Schema/Closed.antt =====
-- Catalogs whose references hold, and what they have for a name that is not taken.
use ketabdan_ms.Prelude.{
  String, ◌≡◌, refl, sym, ap, ◌∙◌, inl, inr, Bool, true, false, not, List, [], ◌∷◌, arith,
  Bool-cases, ◌==◌, nat_eq, string_eq, ==→≡, keep, any, All, elem,
}
use mathlib.Core.Bool.{true≢false}
use ketabdan_ms.Schema.{
  Constraint, foreign_key, primary_key, unique, check, Table, Catalog, relation_names, has_key,
  refers, targets,
}

abbrev pub has_table : String → Catalog → Bool
has_table n c = any (λ t. t.name == n) c.tables

-- Foreign keys refer to keys that are there, and indexes stand on tables that are there.
pub record IsClosed (c : Catalog) : Type 0 where
  pub references : All (λ t. All (λ k. refers c.tables k ≡ true) t.constraints) c.tables
  pub indexed : All (λ i. has_table i.table c ≡ true) c.indexes

pub keep-eq_self {ℓ} :
    {A : Type ℓ} (p : A → Bool) (xs : List A) → any p xs ≡ false → keep (λ x. not (p x)) xs ≡ xs
keep-eq_self p [] h = refl
keep-eq_self p (x ∷ xs) h = elim (Bool-cases (p x)) [
  | inl e ↦ ground arith
  | inr e ↦ rw e (ap (λ ys. x ∷ ys) (keep-eq_self p xs (rw e at h)))
]

pub any-of-All {ℓ} :
    {A : Type ℓ} (P : A → Type 0) (p : A → Bool)
    → ((a : A) → P a → p a ≡ false)
    → (xs : List A) → All P xs
    → any p xs ≡ false
any-of-All P p f [] v = refl
any-of-All P p f (x ∷ xs) (h, v) = rw (f x h) (any-of-All P p f xs v)

-- A name that is not taken is no table's.
pub untaken-table :
    (n : String) (ts : List Table)
    → any (λ t. elem n (relation_names t)) ts ≡ false
    → any (λ t. t.name == n) ts ≡ false
untaken-table n [] h = refl
untaken-table n (t ∷ ts) h = let ih = untaken-table n ts in ground arith

-- Nor does a key of a table with the name exist.
pub no-key :
    (n : String) (cols : List String) (ts : List Table)
    → any (λ t. t.name == n) ts ≡ false
    → has_key n cols ts ≡ false
no-key n cols [] h = refl
no-key n cols (t ∷ ts) h = let ih = no-key n cols ts in ground arith

pub no-target :
    (n : String) (ts : List Table) (k : Constraint)
    → any (λ t. t.name == n) ts ≡ false
    → refers ts k ≡ true
    → targets n k ≡ false
no-target n ts (primary_key m cols) h r = refl
no-target n ts (unique m cols) h r = refl
no-target n ts (check m e) h r = refl
no-target n ts (foreign_key m cols target cols' d) h r = elim (Bool-cases (target == n)) [
  | inl e ↦
      absurd
        (true≢false (sym r ∙ ap (λ x. has_key x cols' ts) (==→≡ target n e) ∙ no-key n cols' ts h))
  | inr e ↦ e
]

pub refers-more :
    (t : Table) (ts : List Table) (k : Constraint) → refers ts k ≡ true → refers (t ∷ ts) k ≡ true
refers-more t ts (foreign_key m cols target cols' d) h = ground arith
refers-more t ts (primary_key m cols) h = refl
refers-more t ts (unique m cols) h = refl
refers-more t ts (check m e) h = refl

pub has_table-more :
    (t : Table) (c : Catalog) (n : String)
    → has_table n c ≡ true
    → has_table n (record c { tables = t ∷ c.tables }) ≡ true
has_table-more t c n h = ground arith

pub All-of-any {ℓ} :
    {A : Type ℓ} (p : A → Bool) (xs : List A)
    → any (λ x. not (p x)) xs ≡ false
    → All (λ x. p x ≡ true) xs
All-of-any p [] h = tt
All-of-any p (x ∷ xs) h = (ground arith, All-of-any p xs (ground arith))
