-- ===== src/Domain/Tests.antt =====
-- Creations on concrete values.
use ketabdan_ms.Prelude.{◌≡◌, refl, true, none, some, [], ◌∷◌, nat_eq, string_eq, ok, err}
use ketabdan_ms.Store.{Person, EventResponsibility, Db}
use ketabdan_ms.Domain.{
  PersonCreate, EventAssignmentCreate, person_not_found, create_person, create_event_assignment,
  get_event, get_person, get_event_assignment, responsibility_by_code, role_by_code, from_keys,
  new_assignment,
}
use ketabdan_ms.Domain.Members.{Joined, create_person_sound}

abbrev registration : EventResponsibility
registration = record { id = 3; code = "registration"; name = "Registration"; active = true }

abbrev payload : EventAssignmentCreate
payload = record { event_id = 1; person_id = 2; responsibility = "registration" }

abbrev tables : Db
tables = record {
  users = [];
  application_roles = [];
  permissions = [];
  application_role_permissions = [];
  user_application_roles = [];
  roles =
      record { id = 20; code = "learner"; name = "Learner" }
      ∷ record { id = 21; code = "coach"; name = "Coach" }
      ∷ [];
  persons = record { id = 2; name = "Zahra"; phone = none; active = true } ∷ [];
  person_roles = [];
  events =
      record { id = 1; title = "Club"; type = "book-club"; planned_at = 0; status = "DRAFT" } ∷ [];
  event_responsibilities = registration ∷ [];
  event_assignments = new_assignment 8 payload registration ∷ [];
}

abbrev member : PersonCreate
member = record {
  name = "Ali";
  phone = some "0912";
  active = true;
  roles = "coach" ∷ "learner" ∷ "coach" ∷ [];
}

abbrev ghost : PersonCreate
ghost = record { name = "Ali"; phone = none; active = true; roles = "coach" ∷ "ghost" ∷ [] }

abbrev ali : Person
ali = record { id = 9; name = "Ali"; phone = some "0912"; active = true }

made :
    (create_event_assignment 9 payload tables).0 ≡ ok (some (new_assignment 9 payload registration))
unfolding create_event_assignment get_event get_person responsibility_by_code get_event_assignment
made = refl

unknown_person :
    (create_event_assignment 9 (record payload { person_id = 5 }) tables).0
    ≡ err (person_not_found 5)
unfolding create_event_assignment get_event get_person
unknown_person = refl

joined : (create_person 9 member tables).0 ≡ ok ali
unfolding create_person from_keys role_by_code
joined = refl

unknown_role : (create_person 9 ghost tables).0 ≡ err ("ghost" ∷ [])
unfolding create_person from_keys role_by_code
unknown_role = refl

create_person_sound_example : Joined 9 member tables ali (create_person 9 member tables).1
create_person_sound_example = create_person_sound 9 member tables ali joined
