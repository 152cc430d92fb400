-- ===== src/Api/Service/Effects.antt =====
-- What each creation does to the catalogue.
use ketabdan_ms.Prelude.{
  ℕ, String, ◌≡◌, refl, sym, ap, ◌∙◌, inl, inr, Bool, true, false, not, ◌&&◌, Option, none, some,
  List, [], ◌∷◌, if◌then◌else◌, Bool-cases, ◌==◌, nat_eq, string_eq, ==→≡, find, keep, any,
}
use ketabdan_ms.Store.{Role, Person, Event, EventResponsibility, Db}
use ketabdan_ms.Domain.{
  create_event, EventAssignmentCreate, create_event_assignment, PersonCreate, create_person,
  from_keys, role_by_code, unless_found, missing_codes, found_roles, add_unless_missing, get_event,
  get_person, get_event_assignment, responsibility_by_code, check_event, check_person,
  write_assignment,
}
use ketabdan_ms.Api.Resources.{EventBody, accept_event}
use ketabdan_ms.Api.Service.Catalogue.{put, all_known, with_person, with_event, assign, view}

abbrev is_empty : {A : Type 0} → List A → Bool
is_empty [] = true
is_empty (x ∷ xs) = false

abbrev is_some : {A : Type 0} → Option A → Bool
is_some none = false
is_some (some a) = true

found-any : {A : Type 0} (p : A → Bool) (xs : List A) → any p xs ≡ is_some (find p xs)
found-any p [] = refl
found-any p (x ∷ xs) = elim (Bool-cases (p x)) [ inl e ↦ rw e refl | inr e ↦ rw e (found-any p xs) ]

missing-step :
    (c : String) (o : Option Role) (rest : List String)
    → is_empty (unless_found c o rest) ≡ (is_some o && is_empty rest)
missing-step c none rest = refl
missing-step c (some r) rest = refl

missing-all_known :
    (db : Db) (cs : List String) → is_empty (missing_codes db cs) ≡ all_known db.roles cs
unfolding role_by_code
missing-all_known db [] = refl
missing-all_known db (c ∷ cs) =
    missing-step c (find (λ r. r.code == c) db.roles) (missing_codes db cs)
    ∙ rw (found-any (λ (r : Role). r.code == c) db.roles, missing-all_known db cs) refl

all_known-keep :
    (roles : List Role) (c : String) (cs : List String)
    → any (λ r. r.code == c) roles ≡ true
    → all_known roles (keep (λ d. not (c == d)) cs) ≡ all_known roles cs
all_known-keep roles c [] h = refl
all_known-keep roles c (d ∷ cs) h =
    let rest = all_known-keep roles c cs h in
    elim (Bool-cases (c == d)) [
      | inl e ↦ rw (e, sym (==→≡ c d e), h) rest
      | inr e ↦ rw e (ap (λ b. any (λ r. r.code == d) roles && b) rest)
    ]

all_known-from_keys :
    (roles : List Role) (cs : List String) → all_known roles (from_keys cs) ≡ all_known roles cs
unfolding from_keys
all_known-from_keys roles [] = refl
all_known-from_keys roles (c ∷ cs) = elim (Bool-cases (any (λ r. r.code == c) roles)) [
  | inl e ↦ rw e (all_known-keep roles c (from_keys cs) e ∙ all_known-from_keys roles cs)
  | inr e ↦ rw e refl
]

-- The effects of the three creations
person_unless :
    (person : Person) (roles : List Role) (db : Db) (missing : List String)
    → view (add_unless_missing person roles db missing).1 ≡ (
        if is_empty missing
        then record (view db) { persons = put person.id person (view db).persons }
        else view db)
unfolding view get_event get_person get_event_assignment
person_unless person roles db [] = refl
person_unless person roles db (m ∷ ms) = refl

pub create_person-view :
    (id : ℕ) (payload : PersonCreate) (db : Db)
    → view (create_person id payload db).1 ≡ with_person id payload db.roles (view db)
unfolding create_person
create_person-view id payload db =
    person_unless _ (found_roles db (from_keys payload.roles)) db
      (missing_codes db (from_keys payload.roles))
    ∙ rw
        (missing-all_known db (from_keys payload.roles), all_known-from_keys db.roles payload.roles)
        refl

pub accept_event-view :
    (id : ℕ) (body : EventBody) (db : Db)
    → view (accept_event id body db).1 ≡ with_event id body (view db)
unfolding view get_event get_person get_event_assignment create_event
accept_event-view id body db = elim (Bool-cases body.has_offset) [
  | inl e ↦ rw e refl
  | inr e ↦ rw e refl
]

write-view :
    (id : ℕ) (payload : EventAssignmentCreate) (db : Db) (e : Event) (p : Person)
    (r : Option EventResponsibility)
    → view (write_assignment id payload db r).1 ≡ assign id payload (some e) (some p) r (view db)
unfolding view get_event get_person get_event_assignment
write-view id payload db e p none = refl
write-view id payload db e p (some r) = refl

check_person-view :
    (id : ℕ) (payload : EventAssignmentCreate) (db : Db) (e : Event) (p : Option Person)
    → view (check_person id payload db p).1
      ≡ assign id payload (some e) p (responsibility_by_code db payload.responsibility) (view db)
check_person-view id payload db e none = refl
check_person-view id payload db e (some p) = write-view id payload db e p _

check_event-view :
    (id : ℕ) (payload : EventAssignmentCreate) (db : Db) (e : Option Event)
    → view (check_event id payload db e).1
      ≡ assign id payload e
          (get_person db payload.person_id)
          (responsibility_by_code db payload.responsibility)
          (view db)
check_event-view id payload db none = refl
check_event-view id payload db (some e) = check_person-view id payload db e _

pub create_event_assignment-view :
    (id : ℕ) (payload : EventAssignmentCreate) (db : Db)
    → view (create_event_assignment id payload db).1
      ≡ assign id payload
          ((view db).events payload.event_id)
          ((view db).persons payload.person_id)
          (responsibility_by_code db payload.responsibility)
          (view db)
unfolding create_event_assignment view
create_event_assignment-view id payload db =
    check_event-view id payload db (get_event db payload.event_id)
