-- ===== src/Domain/Members.antt =====
-- The roles of a new member.
use ketabdan_ms.Prelude.{
  ℕ, String, ◌≡◌, refl, sym, ap, ◌∙◌, inl, inr, Bool, true, false, not, Option, none, some, List,
  [], ◌∷◌, map, arith, eq_iff, Bool-cases, ◌==◌, nat_eq, string_eq, ==→≡, ok, keep, elem, any, All,
  ==_refl, find, ◌++◌,
}
use ketabdan_ms.Prelude.Membership.{find-holds, find-any, elem-keep}
use ketabdan_ms.Store.{Person, Role, Db}
use ketabdan_ms.Domain.{
  PersonCreate, from_keys, role_by_code, unless_found, if_found, missing_codes, found_roles,
  add_unless_missing, add_person, create_person,
}

cons-eq : {x y : String} {xs ys : List String} → x ≡ y → xs ≡ ys → (x ∷ xs) ≡ (y ∷ ys)
cons-eq h h' = cc

found_step :
    (db : Db) (c : String) (cs : List String) (o : Option Role)
    → role_by_code db c ≡ o
    → (missing_codes db cs ≡ [] → map (λ r. r.code) (found_roles db cs) ≡ cs)
    → unless_found c o (missing_codes db cs) ≡ []
    → map (λ r. r.code) (if_found o (found_roles db cs)) ≡ c ∷ cs
unfolding role_by_code
found_step db c cs none e rest h = cc
found_step db c cs (some r) e rest h =
    cons-eq (==→≡ r.code c (find-holds (λ x. x.code == c) db.roles r e)) (rest h)

found_roles-codes :
    (db : Db) (cs : List String)
    → missing_codes db cs ≡ []
    → map (λ r. r.code) (found_roles db cs) ≡ cs
found_roles-codes db [] h = refl
found_roles-codes db (c ∷ cs) h =
    found_step db c cs (role_by_code db c) refl (found_roles-codes db cs) h

-- `from_keys` keeps what is in a list, and each once.
pub elem-from_keys : (c : String) (cs : List String) → elem c (from_keys cs) ≡ elem c cs
unfolding from_keys
elem-from_keys c [] = refl
elem-from_keys c (d ∷ cs) = elim (Bool-cases (d == c)) [
  | inl e ↦ rw e refl
  | inr e ↦ rw e (elem-keep c (λ x. not (d == x)) (from_keys cs) (rw e refl) ∙ elem-from_keys c cs)
]

abbrev pub NoRepeats : List String → Type 0
NoRepeats [] = Unit
NoRepeats (c ∷ cs) = (elem c cs ≡ false) × NoRepeats cs

elem-keep-other :
    (c : String) (p : String → Bool) (cs : List String)
    → elem c cs ≡ false
    → elem c (keep p cs) ≡ false
elem-keep-other c p [] h = refl
elem-keep-other c p (d ∷ cs) h = let rest = elem-keep-other c p cs (ground arith) in ground arith

not_same : (c d : String) → (c == d) ≡ false → (d == c) ≡ false
not_same c d h = ground (arith, eq_iff c d, eq_iff d c)

elem-keep-dropped : (c : String) (cs : List String) → elem c (keep (λ d. not (c == d)) cs) ≡ false
elem-keep-dropped c [] = refl
elem-keep-dropped c (d ∷ cs) =
    let rest = elem-keep-dropped c cs in
    elim (Bool-cases (c == d)) [ inl e ↦ rw e rest | inr e ↦ rw (e, not_same c d e) rest ]

keep-NoRepeats : (p : String → Bool) (cs : List String) → NoRepeats cs → NoRepeats (keep p cs)
keep-NoRepeats p [] v = v
keep-NoRepeats p (c ∷ cs) (new, v) = elim (Bool-cases (p c)) [
  | inl e ↦ rw e (elem-keep-other c p cs new, keep-NoRepeats p cs v)
  | inr e ↦ rw e (keep-NoRepeats p cs v)
]

from_keys-NoRepeats : (cs : List String) → NoRepeats (from_keys cs)
unfolding from_keys
from_keys-NoRepeats [] = _
from_keys-NoRepeats (c ∷ cs) =
    (elem-keep-dropped c (from_keys cs), keep-NoRepeats _ (from_keys cs) (from_keys-NoRepeats cs))

if_found-stored :
    (db : Db) (c : String) (o : Option Role) (rest : List Role)
    → role_by_code db c ≡ o
    → All (λ r. any (λ x. x.id == r.id) db.roles ≡ true) rest
    → All (λ r. any (λ x. x.id == r.id) db.roles ≡ true) (if_found o rest)
unfolding role_by_code
if_found-stored db c none rest e v = v
if_found-stored db c (some r) rest e v =
    (find-any (λ x. x.id == r.id) (λ x. x.code == c) db.roles r e (==_refl r.id), v)

found_roles-stored :
    (db : Db) (cs : List String)
    → All (λ r. any (λ x. x.id == r.id) db.roles ≡ true) (found_roles db cs)
found_roles-stored db [] = tt
found_roles-stored db (c ∷ cs) =
    if_found-stored db c (role_by_code db c) (found_roles db cs) refl (found_roles-stored db cs)

-- A role that a lookup found is found by its own code.
abbrev pub FoundByCode : Db → Role → Type 0
FoundByCode db r = find (λ x. x.code == r.code) db.roles ≡ some r

found-by_code : (db : Db) (c : String) (r : Role) → role_by_code db c ≡ some r → FoundByCode db r
unfolding role_by_code
found-by_code db c r e =
    ap (λ k. find (λ (x : Role). x.code == k) db.roles)
      (==→≡ r.code c (find-holds (λ x. x.code == c) db.roles r e))
    ∙ e

if_found-looked_up :
    (db : Db) (c : String) (o : Option Role) (rest : List Role)
    → role_by_code db c ≡ o
    → All (FoundByCode db) rest
    → All (FoundByCode db) (if_found o rest)
if_found-looked_up db c none rest e v = v
if_found-looked_up db c (some r) rest e v = (found-by_code db c r e, v)

found_roles-looked_up : (db : Db) (cs : List String) → All (FoundByCode db) (found_roles db cs)
found_roles-looked_up db [] = tt
found_roles-looked_up db (c ∷ cs) =
    if_found-looked_up db c (role_by_code db c) (found_roles db cs) refl
      (found_roles-looked_up db cs)

-- A creation that succeeds
pub record Joined (id : ℕ) (payload : PersonCreate) (db : Db) (p : Person) (db' : Db) : Type 0 where
  pub roles : List Role
  pub written : db' ≡ add_person p roles db
  pub person :
      p ≡ record { id = id; name = payload.name; phone = payload.phone; active = payload.active }
  pub persons : db'.persons ≡ p ∷ db.persons
  pub memberships :
      db'.person_roles
      ≡ map (λ r. record { person_id = id; role_id = r.id }) roles ++ db.person_roles
  pub others : record db' { persons = db.persons; person_roles = db.person_roles } ≡ db
  pub identified : p.id ≡ id
  pub no_repeats : NoRepeats (map (λ r. r.code) roles)
  pub requested : (c : String) → elem c (map (λ r. r.code) roles) ≡ elem c payload.roles
  pub looked_up : All (FoundByCode db) roles
  pub stored : All (λ r. any (λ x. x.id == r.id) db.roles ≡ true) roles

-- The row of the request
abbrev row_of : ℕ → PersonCreate → Person
row_of id payload = record {
  id = id;
  name = payload.name;
  phone = payload.phone;
  active = payload.active;
}

joined :
    (id : ℕ) (payload : PersonCreate) (db : Db) (p : Person) (missing : List String)
    → missing_codes db (from_keys payload.roles) ≡ missing
    → (add_unless_missing
        (row_of id payload)
        (found_roles db (from_keys payload.roles))
        db
        missing).0
      ≡ ok p
    → Joined id payload db p
        (add_unless_missing
          (row_of id payload)
          (found_roles db (from_keys payload.roles))
          db
          missing).1
joined id payload db p [] e h =
    let codes = from_keys payload.roles in
    let same = found_roles-codes db codes e in
    let it : row_of id payload ≡ p = cc in
    record {
      roles = found_roles db codes;
      written = ap (λ x. add_person x (found_roles db codes) db) it;
      person = sym it;
      persons = ap (λ x. x ∷ db.persons) it;
      memberships = refl;
      others = refl;
      identified = ap (λ (x : Person). x.id) (sym it);
      no_repeats = rw same (from_keys-NoRepeats payload.roles);
      requested = λ c. rw same (elem-from_keys c payload.roles);
      looked_up = found_roles-looked_up db codes;
      stored = found_roles-stored db codes;
    }
joined id payload db p (m ∷ ms) e h = cc

-- A creation that succeeds adds the person as it was requested, and one membership for each distinct
-- requested code, with the role that is stored under that code, and for no other code; codes that
-- repeat are collapsed, and no other row is written.
pub create_person_sound :
    (id : ℕ) (payload : PersonCreate) (db : Db) (p : Person)
    → (create_person id payload db).0 ≡ ok p
    → Joined id payload db p (create_person id payload db).1
unfolding create_person
create_person_sound id payload db p h = joined id payload db p _ refl h
