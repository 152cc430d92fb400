-- ===== src/Domain/Refusals.antt =====
-- What a creation of a member that is refused names and leaves.
use ketabdan_ms.Prelude.{
  ℕ, String, ◌≡◌, refl, ◌⊎◌, inl, inr, true, Option, none, some, List, [], ◌∷◌, arith, eq_iff,
  nat_eq, string_eq, err, elem,
}
use ketabdan_ms.Store.{Person, Role, Db}
use ketabdan_ms.Domain.{
  PersonCreate, from_keys, role_by_code, unless_found, missing_codes, found_roles,
  add_unless_missing, create_person,
}

refused :
    (db : Db) (person : Person) (roles : List Role) (missing codes : List String)
    → (add_unless_missing person roles db missing).0 ≡ err codes
    → (missing ≡ codes) × ((add_unless_missing person roles db missing).1 ≡ db)
refused db person roles [] codes h = cc
refused db person roles (m ∷ ms) codes h = (cc, refl)

unless-none :
    (db : Db) (c d : String) (rest : List String) (o : Option Role)
    → role_by_code db d ≡ o
    → elem c (unless_found d o rest) ≡ true
    → ((c ≡ d) × (o ≡ none)) ⊎ (elem c rest ≡ true)
unless-none db c d rest none e h = ground (arith, eq_iff d c)
unless-none db c d rest (some r) e h = inr h

missing-unknown :
    (db : Db) (c : String) (cs : List String)
    → elem c (missing_codes db cs) ≡ true
    → role_by_code db c ≡ none
missing-unknown db c [] h = cc
missing-unknown db c (d ∷ cs) h =
    elim (unless-none db c d (missing_codes db cs) (role_by_code db d) refl h) [
      | inl (same, e) ↦ rw same e
      | inr rest ↦ missing-unknown db c cs rest
    ]

pub create_person_atomic :
    (id : ℕ) (payload : PersonCreate) (db : Db) (codes : List String)
    → (create_person id payload db).0 ≡ err codes
    → (create_person id payload db).1 ≡ db
unfolding create_person
create_person_atomic id payload db codes h =
    (refused db _ (found_roles db (from_keys payload.roles)) _ codes h).1

-- Each code that the error of a creation names is a code that no role has, and a creation that
-- raises writes neither the person nor any membership.
create_person_error :
    (id : ℕ) (payload : PersonCreate) (db : Db) (codes : List String) (c : String)
    → (create_person id payload db).0 ≡ err codes
    → elem c codes ≡ true
    → (role_by_code db c ≡ none) × ((create_person id payload db).1 ≡ db)
unfolding create_person
create_person_error id payload db codes c h m =
    let (same, unchanged) = refused db _ (found_roles db (from_keys payload.roles)) _ codes h in
    (missing-unknown db c (from_keys payload.roles) (rw same m), unchanged)
