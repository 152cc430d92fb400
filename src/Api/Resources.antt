-- ===== src/Api/Resources.antt =====
-- The business endpoints: apps/api/app/api/roles.py, persons.py, events.py and event_assignments.py. Each
-- has its permission as a dependency, which runs first. Path and body are parsed; `collate` is the
-- order of texts in the database.
use ketabdan_ms.Prelude.{
  ℕ, String, Bool, true, false, not, ◌&&◌, ◌||◌, Option, none, some, List, [], ◌∷◌, map, leb,
  if◌then◌else◌, ◌==◌, nat_eq, string_eq, Result, ok, err, find, keep, concat_map,
}
use ketabdan_ms.Prelude.Text.{join}
use ketabdan_ms.Prelude.Sorting.{sort}
use ketabdan_ms.Store.{User, Role, Person, Event, EventResponsibility, EventAssignment, Db}
use ketabdan_ms.Domain.{
  EventCreate, create_event, EventAssignmentCreate, AssignmentError, event_not_found,
  person_not_found, unknown_responsibility, get_event, get_event_assignment,
  create_event_assignment, PersonCreate, create_person,
}
use ketabdan_ms.Api.{
  Reply, replied, failed, uncaught, World, Draws, Credentials, require_permission,
}
use Prim.Native.String.{compare as compare_text}

-- Python's `<=` on texts, by code points
abbrev pub text_leb : String → String → Bool
text_leb a b = elim (compare_text a b) [ Prim.Native.Nat.Ordering.gt ↦ false | _ ↦ true ]

-- `ORDER BY first, id`
abbrev pub by_then_id : Bool → Bool → ℕ → ℕ → Bool
by_then_id less_equal greater_equal a b = less_equal && (not greater_equal || leb a b)

abbrev pub event_le : Event → Event → Bool
event_le a b = by_then_id (leb a.planned_at b.planned_at) (leb b.planned_at a.planned_at) a.id b.id

abbrev pub person_le : (String → String → Bool) → Person → Person → Bool
person_le collate a b = by_then_id (collate a.name b.name) (collate b.name a.name) a.id b.id

abbrev pub assignment_le : EventAssignment → EventAssignment → Bool
assignment_le a b = leb a.id b.id

abbrev pub role_le : (String → String → Bool) → Role → Role → Bool
role_le collate a b = collate a.code b.code

pub record PersonRead : Type 0 where
  pub person : Person
  pub roles : List Role

abbrev to_list : Option Role → List Role
to_list none = []
to_list (some r) = r ∷ []

-- The roles behind the person's links, sorted by code
unfoldable pub read_person : Db → Person → PersonRead
unfolding sort
read_person db p = record {
  person = p;
  roles = sort (role_le text_leb) (
      concat_map (λ link. to_list (find (λ r. r.id == link.role_id) db.roles))
        (keep (λ link. link.person_id == p.id) db.person_roles));
}

pub record EventAssignmentRead : Type 0 where
  pub assignment : EventAssignment
  pub responsibility : Option EventResponsibility

abbrev pub read_assignment : Db → EventAssignment → EventAssignmentRead
read_assignment db a = record {
  assignment = a;
  responsibility = find (λ r. r.id == a.responsibility_id) db.event_responsibilities;
}

-- The body of `POST /api/events`: an instant, and whether the text had an offset.
pub record EventBody : Type 0 where
  pub event : EventCreate
  pub has_offset : Bool

-- `Depends(require_permission(...))`: the handler runs only if the dependency returns.
abbrev pub guarded : {A : Type 0} → Reply User → Db → (Unit {0} → Reply A × Db) → Reply A × Db
guarded (replied status user) db handler = handler tt
guarded (failed status detail header) db handler = (failed status detail header, db)
guarded (uncaught name) db handler = (uncaught name, db)

abbrev pub or_404 : {A : Type 0} → String → Option A → Reply A
or_404 detail none = failed 404 detail none
or_404 detail (some a) = replied 200 a

abbrev pub answer_person : Db → Result (List String) Person × Db → Reply PersonRead × Db
answer_person old (ok p, db) = (replied 201 (read_person db p), db)
answer_person old (err codes, db) =
    (failed 422 (Prim.Native.String.◌++◌ "Unknown role code(s): " (join ", " codes)) none, db)

abbrev pub answer_assignment :
    Result AssignmentError (Option EventAssignment) × Db → Reply EventAssignmentRead × Db
answer_assignment (ok (some a), db) = (replied 201 (read_assignment db a), db)
answer_assignment (ok none, db) = (uncaught "ResponseValidationError", db)
answer_assignment (err (event_not_found id), db) = (failed 404 "Event not found" none, db)
answer_assignment (err (person_not_found id), db) = (failed 404 "Person not found" none, db)
answer_assignment (err (unknown_responsibility code), db) =
    (failed 422 (Prim.Native.String.◌++◌ "Unknown responsibility code: " code) none, db)

-- The validator of `EventCreate` wants an offset.
abbrev pub accept_event : ℕ → EventBody → Db → Reply Event × Db
accept_event id body db =
    if not body.has_offset
    then (failed 422 "validation error" none, db)
    else (let (event, db') = create_event id body.event db in (replied 201 event, db'))

module _ (w : World) (collate : String → String → Bool) where
  unfoldable pub list_roles : Draws → Option Credentials → Db → Reply (List Role) × Db
  unfolding sort
  list_roles d c db =
      guarded (require_permission w "roles:read" d.now c db) db
        (λ _. (replied 200 (sort (role_le collate) db.roles), db))

  unfoldable pub list_persons : Draws → Option Credentials → Db → Reply (List PersonRead) × Db
  unfolding sort read_person
  list_persons d c db =
      guarded (require_permission w "people:read" d.now c db) db
        (λ _. (replied 200 (map (λ p. read_person db p) (sort (person_le collate) db.persons)), db))

  unfoldable pub post_person :
      Draws → Option Credentials → PersonCreate → Db → Reply PersonRead × Db
  unfolding read_person
  post_person d c payload db =
      guarded (require_permission w "people:create" d.now c db) db
        (λ _. answer_person db (create_person d.id payload db))

  unfoldable pub list_events : Draws → Option Credentials → Db → Reply (List Event) × Db
  unfolding sort
  list_events d c db =
      guarded (require_permission w "events:read" d.now c db) db
        (λ _. (replied 200 (sort event_le db.events), db))

  unfoldable pub read_event : Draws → Option Credentials → ℕ → Db → Reply Event × Db
  read_event d c id db =
      guarded (require_permission w "events:read" d.now c db) db
        (λ _. (or_404 "Event not found" (get_event db id), db))

  unfoldable pub post_event : Draws → Option Credentials → EventBody → Db → Reply Event × Db
  post_event d c body db =
      guarded (require_permission w "events:create" d.now c db) db (λ _. accept_event d.id body db)

  unfoldable pub list_event_assignments :
      Draws → Option Credentials → Db → Reply (List EventAssignmentRead) × Db
  unfolding sort
  list_event_assignments d c db =
      guarded (require_permission w "assignments:read" d.now c db) db (λ _. (
        replied 200 (map (λ a. read_assignment db a) (sort assignment_le db.event_assignments)),
        db,
      ))

  unfoldable pub read_event_assignment :
      Draws → Option Credentials → ℕ → Db → Reply EventAssignmentRead × Db
  read_event_assignment d c id db =
      guarded (require_permission w "assignments:read" d.now c db) db (λ _. (
        or_404 "Event assignment not found" (elim (get_event_assignment db id) [
          | none ↦ none
          | some a ↦ some (read_assignment db a)
        ]),
        db,
      ))

  unfoldable pub post_event_assignment :
      Draws → Option Credentials → EventAssignmentCreate → Db → Reply EventAssignmentRead × Db
  post_event_assignment d c payload db =
      guarded (require_permission w "assignments:create" d.now c db) db
        (λ _. answer_assignment (create_event_assignment d.id payload db))
