-- ===== src/Domain/Assignments.antt =====
-- What an assignment refers to exists when it is created, and stays.
use ketabdan_ms.Prelude.{
  ℕ, ◌≡◌, refl, ◌≢◌, inl, inr, Option, none, some, arith, Option-cases, nat_eq, string_eq, ok, err,
}
use ketabdan_ms.Store.{Event, Person, EventResponsibility, EventAssignment, Db}
use ketabdan_ms.Domain.{
  EventAssignmentCreate, AssignmentError, event_not_found, person_not_found, unknown_responsibility,
  get_event, get_person, get_event_assignment, responsibility_by_code, new_assignment,
  add_assignment, write_assignment, create_event_assignment,
}

-- A creation that succeeds: the references were found, and one pending row is added.
pub record Assigned (id : ℕ) (payload : EventAssignmentCreate) (db : Db)
    (a : Option EventAssignment) (db' : Db) : Type 0 where
  pub event : Event
  pub person : Person
  pub responsibility : EventResponsibility
  pub event_found : get_event db payload.event_id ≡ some event
  pub person_found : get_person db payload.person_id ≡ some person
  pub responsibility_found : responsibility_by_code db payload.responsibility ≡ some responsibility
  pub returned : a ≡ some (new_assignment id payload responsibility)
  pub references :
      ((new_assignment id payload responsibility).event_id ≡ payload.event_id)
      × ((new_assignment id payload responsibility).person_id ≡ payload.person_id)
      × ((new_assignment id payload responsibility).responsibility_id ≡ responsibility.id)
  pub is_pending : (new_assignment id payload responsibility).approval_status ≡ "PENDING"
  pub written : db' ≡ add_assignment (new_assignment id payload responsibility) db

write_ok :
    (id : ℕ) (payload : EventAssignmentCreate) (db : Db) (a : Option EventAssignment) (e : Event)
    (p : Person) (o : Option EventResponsibility)
    → get_event db payload.event_id ≡ some e
    → get_person db payload.person_id ≡ some p
    → responsibility_by_code db payload.responsibility ≡ o
    → (write_assignment id payload db o).0 ≡ ok a
    → Assigned id payload db a (write_assignment id payload db o).1
unfolding get_event_assignment
write_ok id payload db a e p none he hp hr h = cc
write_ok id payload db a e p (some r) he hp hr h = record {
  event = e;
  person = p;
  responsibility = r;
  event_found = he;
  person_found = hp;
  responsibility_found = hr;
  references = (refl, refl, refl);
  is_pending = refl;
  returned = ground arith;
  written = refl;
}

-- A creation that succeeds found the event, the person and the responsibility that it names, and
-- adds one row with them in status PENDING; the row it returns is that one, and nothing else changes.
pub create_event_assignment_sound :
    (id : ℕ) (payload : EventAssignmentCreate) (db : Db) (a : Option EventAssignment)
    → (create_event_assignment id payload db).0 ≡ ok a
    → Assigned id payload db a (create_event_assignment id payload db).1
unfolding create_event_assignment
create_event_assignment_sound id payload db a h =
    elim (Option-cases (get_event db payload.event_id)) [
      | inl e ↦ (let h' = rw e at h in cc)
      | inr (x, e) ↦ elim (Option-cases (get_person db payload.person_id)) [
        | inl e' ↦ (let h' = rw (e, e') at h in cc)
        | inr (p, e') ↦ rw (e, e') (write_ok id payload db a x p _ e e' refl (rw (e, e') at h))
      ]
    ]

-- Which reference an error is about; the first one that is missing, in this order.
abbrev pub Missing : EventAssignmentCreate → Db → AssignmentError → Type 0
Missing payload db (event_not_found id) = (id ≡ payload.event_id) × (get_event db id ≡ none)
Missing payload db (person_not_found id) =
    (id ≡ payload.person_id) × (get_person db id ≡ none) × (get_event db payload.event_id ≢ none)
Missing payload db (unknown_responsibility code) =
    (code ≡ payload.responsibility)
    × (responsibility_by_code db code ≡ none)
    × (get_person db payload.person_id ≢ none)
    × (get_event db payload.event_id ≢ none)

-- A creation that raises names the first missing reference, event before person before
-- responsibility, and writes nothing.
pub create_event_assignment_error :
    (id : ℕ) (payload : EventAssignmentCreate) (db : Db) (e : AssignmentError)
    → (create_event_assignment id payload db).0 ≡ err e
    → Missing payload db e × ((create_event_assignment id payload db).1 ≡ db)
unfolding create_event_assignment
create_event_assignment_error id payload db e h = (ground arith, ground arith)
