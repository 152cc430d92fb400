-- ===== src/Domain.antt =====
-- apps/api/app/services/events.py, event_assignments.py and persons.py: what the creations check
-- and write. The id of a new row is an argument: the default draws it (`uuid_pk`).
pub mod Assignments
pub mod Members
pub mod Refusals
pub mod Integrity
mod Tests
use ketabdan_ms.Prelude.{
  ℕ, zero, suc, ◌+◌, ◌-◌, ◌*◌, ◌/◌, ◌%◌, ◌^◌, ◌≤◌, ◌<◌, String, ◌≡◌, refl, sym, ap, ◌∙◌, ◌≢◌, ◌↔◌,
  ◌⊎◌, inl, inr, Bool, true, false, not, ◌&&◌, ◌||◌, Option, none, some, List, [], ◌∷◌, ◌++◌, map,
  arith, eq_iff, ltb, leb, eqb, if◌then◌else◌, Bool-cases, Option-cases, ltb→lt, lt→ltb, leb→le, Eq,
  ◌==◌, nat_eq, string_eq, ==_refl, ==→≡, Result, ok, err, ◌>>=◌, >>=-eq-ok, length, length-append,
  find, keep, any, All, Any, elem, concat_map,
}
use ketabdan_ms.Store.{
  Event, Person, PersonRole, Role, EventResponsibility, EventAssignment, Db, draft, pending,
}

pub record EventCreate : Type 0 where
  pub title : String
  pub type : String
  pub planned_at : ℕ

-- The model default is the only source of the status.
unfoldable pub create_event : ℕ → EventCreate → Db → Event × Db
create_event id payload db =
    let event : Event = record {
      id = id;
      title = payload.title;
      type = payload.type;
      planned_at = payload.planned_at;
      status = draft;
    } in
    (event, record db { events = event ∷ db.events })

pub record EventAssignmentCreate : Type 0 where
  pub event_id : ℕ
  pub person_id : ℕ
  pub responsibility : String

pub data AssignmentError : Type 0 where
  event_not_found : ℕ → AssignmentError
  person_not_found : ℕ → AssignmentError
  unknown_responsibility : String → AssignmentError

-- `db.get(Event, id)`, `db.get(Person, id)` and the lookups by code
unfoldable pub get_event : Db → ℕ → Option Event
get_event db id = find (λ x. x.id == id) db.events

unfoldable pub get_person : Db → ℕ → Option Person
get_person db id = find (λ x. x.id == id) db.persons

unfoldable pub get_event_assignment : Db → ℕ → Option EventAssignment
get_event_assignment db id = find (λ x. x.id == id) db.event_assignments

unfoldable pub responsibility_by_code : Db → String → Option EventResponsibility
responsibility_by_code db code = find (λ x. x.code == code) db.event_responsibilities

abbrev pub new_assignment : ℕ → EventAssignmentCreate → EventResponsibility → EventAssignment
new_assignment id payload r = record {
  id = id;
  event_id = payload.event_id;
  person_id = payload.person_id;
  responsibility_id = r.id;
  approval_status = pending;
}

abbrev pub add_assignment : EventAssignment → Db → Db
add_assignment a db = record db { event_assignments = a ∷ db.event_assignments }

-- The row that is returned is read again after the commit.
abbrev pub write_assignment :
    ℕ
    → EventAssignmentCreate
    → Db
    → Option EventResponsibility
    → Result AssignmentError (Option EventAssignment) × Db
write_assignment id payload db none = (err (unknown_responsibility payload.responsibility), db)
write_assignment id payload db (some r) =
    let db' = add_assignment (new_assignment id payload r) db in
    (ok (get_event_assignment db' id), db')

abbrev pub check_person :
    ℕ
    → EventAssignmentCreate
    → Db
    → Option Person
    → Result AssignmentError (Option EventAssignment) × Db
check_person id payload db none = (err (person_not_found payload.person_id), db)
check_person id payload db (some p) =
    write_assignment id payload db (responsibility_by_code db payload.responsibility)

abbrev pub check_event :
    ℕ
    → EventAssignmentCreate
    → Db
    → Option Event
    → Result AssignmentError (Option EventAssignment) × Db
check_event id payload db none = (err (event_not_found payload.event_id), db)
check_event id payload db (some x) = check_person id payload db (get_person db payload.person_id)

unfoldable pub create_event_assignment :
    ℕ → EventAssignmentCreate → Db → Result AssignmentError (Option EventAssignment) × Db
create_event_assignment id payload db = check_event id payload db (get_event db payload.event_id)

pub record PersonCreate : Type 0 where
  pub name : String
  pub phone : Option String
  pub active : Bool
  pub roles : List String

-- `list(dict.fromkeys(codes))`: the first occurrence of each stays.
unfoldable pub from_keys : List String → List String
from_keys [] = []
from_keys (c ∷ cs) = c ∷ keep (λ d. not (c == d)) (from_keys cs)

unfoldable pub role_by_code : Db → String → Option Role
role_by_code db code = find (λ r. r.code == code) db.roles

abbrev pub unless_found : String → Option Role → List String → List String
unless_found c none rest = c ∷ rest
unless_found c (some r) rest = rest

-- `[code for code in codes if code not in found]`
abbrev pub missing_codes : Db → List String → List String
missing_codes db [] = []
missing_codes db (c ∷ cs) = unless_found c (role_by_code db c) (missing_codes db cs)

abbrev pub if_found : Option Role → List Role → List Role
if_found none rest = rest
if_found (some r) rest = r ∷ rest

-- `[found[code] for code in codes]`, where none is missing
abbrev pub found_roles : Db → List String → List Role
found_roles db [] = []
found_roles db (c ∷ cs) = if_found (role_by_code db c) (found_roles db cs)

abbrev pub add_person : Person → List Role → Db → Db
add_person p roles db = record db {
  persons = p ∷ db.persons;
  person_roles = map (λ r. record { person_id = p.id; role_id = r.id }) roles ++ db.person_roles;
}

-- `UnknownRoleError(missing)`, or the person and the memberships in one commit
abbrev pub add_unless_missing :
    Person → List Role → Db → List String → Result (List String) Person × Db
add_unless_missing person roles db [] = (ok person, add_person person roles db)
add_unless_missing person roles db (m ∷ ms) = (err (m ∷ ms), db)

unfoldable pub create_person : ℕ → PersonCreate → Db → Result (List String) Person × Db
create_person id payload db =
    let codes = from_keys payload.roles in
    let person : Person = record {
      id = id;
      name = payload.name;
      phone = payload.phone;
      active = payload.active;
    } in
    add_unless_missing person (found_roles db codes) db (missing_codes db codes)
