-- ===== src/Prelude/Membership.antt =====
-- Membership in joined lists, as tests and as predicates.
use ketabdan_ms.Prelude.Tests.{Bool-cases}
use ketabdan_ms.Prelude.Equality.{Eq, ◌==◌, ==→≡}
use ketabdan_ms.Prelude.Lists.{find, keep, any, All, Any, elem, concat_map}
use mathlib.Core.Option.{some}
use mathlib.Core.Path.{◌≡◌, refl, sym, ap, ◌∙◌}
use mathlib.Core.Logic.{◌↔◌, inl, inr}
use mathlib.Core.Bool.{Bool, true, ◌||◌, ◌&&◌}
use mathlib.Core.List.{List, [], ◌∷◌, ◌++◌, map}
use native.Mathlib.Omega.{arith}

pub any-append {ℓ} :
    {A : Type ℓ} (p : A → Bool) (xs ys : List A) → any p (xs ++ ys) ≡ (any p xs || any p ys)
any-append p [] ys = refl
any-append p (x ∷ xs) ys = let ih = any-append p xs ys in ground arith

pub any-concat_map {ℓ} :
    {A B : Type ℓ} (p : B → Bool) (f : A → List B) (xs : List A)
    → any p (concat_map f xs) ≡ any (λ x. any p (f x)) xs
any-concat_map p f [] = refl
any-concat_map p f (x ∷ xs) =
    any-append p (f x) (concat_map f xs) ∙ ap (λ b. any p (f x) || b) (any-concat_map p f xs)

pub any-keep {ℓ} :
    {A : Type ℓ} (p q : A → Bool) (xs : List A) → any p (keep q xs) ≡ any (λ x. q x && p x) xs
any-keep p q [] = refl
any-keep p q (x ∷ xs) =
    let ih = any-keep p q xs in
    elim (Bool-cases (q x)) [ inl e ↦ rw e (ap (λ b. p x || b) ih) | inr e ↦ rw e ih ]

pub any-map {ℓ} :
    {A B : Type ℓ} (p : B → Bool) (f : A → B) (xs : List A)
    → any p (map f xs) ≡ any (λ x. p (f x)) xs
any-map p f [] = refl
any-map p f (x ∷ xs) = ap (λ b. p (f x) || b) (any-map p f xs)

pub elem-any {ℓ} : {A : Type ℓ} ⦃e : Eq A⦄ (a : A) (xs : List A) → elem a xs ≡ any (λ x. x == a) xs
elem-any a [] = refl
elem-any a (x ∷ xs) = ap (λ b. (x == a) || b) (elem-any a xs)

pub any_iff {ℓ} :
    {A : Type ℓ} (p : A → Bool) (P : A → Type 0)
    → ((x : A) → (p x ≡ true) ↔ P x)
    → (xs : List A) → (any p xs ≡ true) ↔ Any P xs
any_iff p P h [] = ground arith
any_iff p P h (x ∷ xs) = let ih = any_iff p P h xs in let hx = h x in ground arith

pub elem-append {ℓ} :
    {A : Type ℓ} ⦃e : Eq A⦄ (a : A) (xs ys : List A) → elem a (xs ++ ys) ≡ (elem a xs || elem a ys)
elem-append a [] ys = refl
elem-append a (x ∷ xs) ys = let ih = elem-append a xs ys in ground arith

pub find-holds {ℓ} :
    {A : Type ℓ} (p : A → Bool) (xs : List A) (a : A) → find p xs ≡ some a → p a ≡ true
find-holds p [] a h = cc
find-holds p (x ∷ xs) a h = elim (Bool-cases (p x)) [
  | inl e ↦ (let h' = rw e at h in let same : x ≡ a = cc in rw (sym same) e)
  | inr e ↦ find-holds p xs a (rw e at h)
]

pub elem-keep {ℓ} :
    {A : Type ℓ} ⦃e : Eq A⦄ (a : A) (p : A → Bool) (xs : List A)
    → p a ≡ true
    → elem a (keep p xs) ≡ elem a xs
elem-keep a p [] h = refl
elem-keep a p (x ∷ xs) h =
    let ih = elem-keep a p xs h in
    elim (Bool-cases (p x)) [
      | inl e ↦ rw e (ap (λ b. (x == a) || b) ih)
      | inr e ↦ elim (Bool-cases (x == a)) [
        | inl e' ↦ (let same = ==→≡ x a e' in cc)
        | inr e' ↦ rw (e, e') ih
      ]
    ]

pub find-any {ℓ} :
    {A : Type ℓ} (p q : A → Bool) (xs : List A) (a : A)
    → find q xs ≡ some a
    → p a ≡ true
    → any p xs ≡ true
find-any p q [] a h h' = cc
find-any p q (x ∷ xs) a h h' = elim (Bool-cases (q x)) [
  | inl e ↦ (let h'' = rw e at h in let same : x ≡ a = cc in let e' : p x ≡ true = cc in rw e' refl)
  | inr e ↦ (let rest = find-any p q xs a (rw e at h) h' in ground arith)
]

pub All-map {ℓ} :
    {A : Type ℓ} {P Q : A → Type 0} → ((a : A) → P a → Q a) → (xs : List A) → All P xs → All Q xs
All-map f [] v = v
All-map f (x ∷ xs) (h, v) = (f x h, All-map f xs v)
