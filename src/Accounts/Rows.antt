-- ===== src/Accounts/Rows.antt =====
-- The rows of users by their ids, and what writing one of them leaves.
use ketabdan_ms.Prelude.{
  ℕ, ◌≡◌, refl, sym, inl, inr, Bool, false, Option, none, some, List, [], ◌∷◌, Bool-cases, ◌==◌,
  nat_eq, ==_refl, ==→≡, find,
}
use ketabdan_ms.Store.{User}
use ketabdan_ms.Accounts.{update}

-- No two rows have one id.
abbrev pub UniqueIds : List User → Type 0
UniqueIds [] = Unit
UniqueIds (x ∷ xs) = (find (λ y. y.id == x.id) xs ≡ none) × UniqueIds xs

abbrev pub with_id : ℕ → List User → Option User
with_id n xs = find (λ x. x.id == n) xs

with_id-update-none :
    (n : ℕ) (user : User) (xs : List User) → with_id n xs ≡ none → with_id n (update user xs) ≡ none
with_id-update-none n user [] h = refl
with_id-update-none n user (x ∷ xs) h = elim (Bool-cases (x.id == n)) [
  | inl e ↦ (let h' = rw e at h in cc)
  | inr e ↦ elim (Bool-cases (x.id == user.id)) [
    | inl e' ↦ rw (e', sym (==→≡ x.id user.id e'), e) (with_id-update-none n user xs (rw e at h))
    | inr e' ↦ rw (e', e) (with_id-update-none n user xs (rw e at h))
  ]
]

pub update-UniqueIds : (user : User) (xs : List User) → UniqueIds xs → UniqueIds (update user xs)
update-UniqueIds user [] v = tt
update-UniqueIds user (x ∷ xs) (first, rest) = elim (Bool-cases (x.id == user.id)) [
  | inl e ↦ rw e (
    with_id-update-none user.id user xs (rw (==→≡ x.id user.id e) at first),
    update-UniqueIds user xs rest,
  )
  | inr e ↦ rw e (with_id-update-none x.id user xs first, update-UniqueIds user xs rest)
]

pub with_id-update :
    (user row : User) (xs : List User)
    → with_id user.id xs ≡ some row
    → with_id user.id (update user xs) ≡ some user
with_id-update user row [] h = cc
with_id-update user row (x ∷ xs) h = elim (Bool-cases (x.id == user.id)) [
  | inl e ↦ rw (e, ==_refl user.id) refl
  | inr e ↦ rw (e, e) (with_id-update user row xs (rw e at h))
]

pub with_id-update-other :
    (n : ℕ) (user : User) (xs : List User)
    → (user.id == n) ≡ false
    → with_id n (update user xs) ≡ with_id n xs
with_id-update-other n user [] h = refl
with_id-update-other n user (x ∷ xs) h = elim (Bool-cases (x.id == user.id)) [
  | inl e ↦ rw (e, ==→≡ x.id user.id e, h) (with_id-update-other n user xs h)
  | inr e ↦ elim (Bool-cases (x.id == n)) [
    | inl e' ↦ rw (e, e') refl
    | inr e' ↦ rw (e, e') (with_id-update-other n user xs h)
  ]
]

none_matches :
    (p : User → Bool) (n : ℕ) (xs : List User) (row : User)
    → with_id n xs ≡ none
    → find p xs ≡ some row
    → (row.id == n) ≡ false
none_matches p n [] row h f = cc
none_matches p n (x ∷ xs) row h f = elim (Bool-cases (x.id == n)) [
  | inl e ↦ (let h' = rw e at h in cc)
  | inr e ↦ elim (Bool-cases (p x)) [
    | inl e' ↦ (let f' = rw e' at f in let same : x ≡ row = cc in rw (sym same) e)
    | inr e' ↦ none_matches p n xs row (rw e at h) (rw e' at f)
  ]
]

-- Where ids are unique, a row that a search finds is found by its id.
pub found_by_id :
    (p : User → Bool) (xs : List User) (row : User)
    → UniqueIds xs
    → find p xs ≡ some row
    → with_id row.id xs ≡ some row
found_by_id p [] row v f = cc
found_by_id p (x ∷ xs) row (first, rest) f = elim (Bool-cases (p x)) [
  | inl e ↦ (let f' = rw e at f in let same : x ≡ row = cc in rw (sym same, ==_refl x.id) refl)
  | inr e ↦
      (let f' = rw e at f in
        elim (Bool-cases (x.id == row.id)) [
          | inl e' ↦
              (let apart = none_matches p row.id xs row (rw (==→≡ x.id row.id e') at first) f' in
                let same = ==_refl row.id in cc)
          | inr e' ↦ rw e' (found_by_id p xs row rest f')
        ])
]
