-- ===== src/Prelude/Sorting.antt =====
-- Ordering rows: an insertion sort, with what is asked of a comparison in the lemmas.
use ketabdan_ms.Prelude.Tests.{if◌then◌else◌, Bool-cases}
use ketabdan_ms.Prelude.Lists.{All, any}
use ketabdan_ms.Prelude.Membership.{All-map}
use mathlib.Core.Path.{◌≡◌, refl, ap, ◌∙◌}
use mathlib.Core.Logic.{inl, inr}
use mathlib.Core.Bool.{Bool, true, false, ◌||◌}
use native.Mathlib.Omega.{arith}
use mathlib.Core.List.{List, [], ◌∷◌, Perm}
use mathlib.Core.List.Perm

module _ {ℓ} {A : Type ℓ} (le : A → A → Bool) where
  unfoldable pub insert : A → List A → List A
  insert a [] = a ∷ []
  insert a (x ∷ xs) = let later = insert a xs in if le a x then a ∷ x ∷ xs else x ∷ later

  unfoldable pub sort : List A → List A
  unfolding insert
  sort [] = []
  sort (x ∷ xs) = insert x (sort xs)

  abbrev pub IsSorted : List A → Type 0
  IsSorted [] = Unit
  IsSorted (x ∷ xs) = All (λ y. le x y ≡ true) xs × IsSorted xs

  insert-perm : (a : A) (xs : List A) → Perm (insert a xs) (a ∷ xs)
  unfolding insert
  insert-perm a [] = Perm.refl _
  insert-perm a (x ∷ xs) = elim (Bool-cases (le a x)) [
    | inl e ↦ rw e (Perm.refl _)
    | inr e ↦ rw e (Perm.trans (Perm.cons x (insert-perm a xs)) (Perm.swap a x xs))
  ]

  pub sort-perm : (xs : List A) → Perm (sort xs) xs
  unfolding sort
  sort-perm [] = Perm.refl _
  sort-perm (x ∷ xs) = Perm.trans (insert-perm x (sort xs)) (Perm.cons x (sort-perm xs))

  any-insert : (p : A → Bool) (a : A) (xs : List A) → any p (insert a xs) ≡ (p a || any p xs)
  unfolding insert
  any-insert p a [] = refl
  any-insert p a (x ∷ xs) =
      let ih = any-insert p a xs in
      elim (Bool-cases (le a x)) [ inl e ↦ rw e refl | inr e ↦ rw e (ground arith) ]

  pub any-sort : (p : A → Bool) (xs : List A) → any p (sort xs) ≡ any p xs
  unfolding sort
  any-sort p [] = refl
  any-sort p (x ∷ xs) = any-insert p x (sort xs) ∙ ap (λ b. p x || b) (any-sort p xs)

  module _ (total : (a b : A) → le a b ≡ false → le b a ≡ true)
      (trans : (a b c : A) → le a b ≡ true → le b c ≡ true → le a c ≡ true) where
    All-insert :
        (y a : A) (xs : List A)
        → le y a ≡ true
        → All (λ x. le y x ≡ true) xs
        → All (λ x. le y x ≡ true) (insert a xs)
    unfolding insert
    All-insert y a [] h v = (h, v)
    All-insert y a (x ∷ xs) h (hx, v) = elim (Bool-cases (le a x)) [
      | inl e ↦ rw e (h, (hx, v))
      | inr e ↦ rw e (hx, All-insert y a xs h v)
    ]

    insert-IsSorted : (a : A) (xs : List A) → IsSorted xs → IsSorted (insert a xs)
    unfolding insert
    insert-IsSorted a [] v = (tt, tt)
    insert-IsSorted a (x ∷ xs) (first, rest) = elim (Bool-cases (le a x)) [
      | inl e ↦ rw e ((e, All-map (λ y h. trans a x y e h) xs first), (first, rest))
      | inr e ↦ rw e (All-insert x a xs (total a x e) first, insert-IsSorted a xs rest)
    ]

    pub sort-IsSorted : (xs : List A) → IsSorted (sort xs)
    unfolding sort
    sort-IsSorted [] = tt
    sort-IsSorted (x ∷ xs) = insert-IsSorted x (sort xs) (sort-IsSorted xs)
