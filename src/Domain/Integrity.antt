-- ===== src/Domain/Integrity.antt =====
-- What the assignments refer to exists, after any creation.
use ketabdan_ms.Prelude.{
  ℕ, String, ◌≡◌, refl, Bool, true, Option, List, ◌∷◌, arith, ◌==◌, nat_eq, string_eq, ==_refl,
  Result, ok, err, any, All,
}
use ketabdan_ms.Prelude.Membership.{All-map, find-holds, find-any}
use ketabdan_ms.Store.{Person, EventAssignment, Db}
use ketabdan_ms.Domain.{
  EventCreate, create_event, EventAssignmentCreate, AssignmentError, get_event, get_person,
  responsibility_by_code, new_assignment, create_event_assignment, PersonCreate, create_person,
}
use ketabdan_ms.Domain.Assignments.{
  Assigned, create_event_assignment_sound, create_event_assignment_error,
}
use ketabdan_ms.Domain.Members.{create_person_sound}
use ketabdan_ms.Domain.Refusals.{create_person_atomic}

-- Every assignment refers to an event, a person and a responsibility that exist.
abbrev pub Refers : Db → EventAssignment → Type 0
Refers db a =
    (any (λ x. x.id == a.event_id) db.events ≡ true)
    × (any (λ x. x.id == a.person_id) db.persons ≡ true)
    × (any (λ x. x.id == a.responsibility_id) db.event_responsibilities ≡ true)

abbrev pub ReferencesHold : Db → Type 0
ReferencesHold db = All (Refers db) db.event_assignments

still {ℓ} :
    {A : Type ℓ} (p : A → Bool) (x : A) (xs : List A) → any p xs ≡ true → any p (x ∷ xs) ≡ true
still p x xs h = ground arith

new_assignment-Refers :
    (id : ℕ) (payload : EventAssignmentCreate) (db : Db) (a : Option EventAssignment) (db' : Db)
    (h : Assigned id payload db a db')
    → Refers db (new_assignment id payload h.responsibility)
unfolding get_event get_person responsibility_by_code
new_assignment-Refers id payload db a db' h = (
  find-any _ _ db.events h.event h.event_found (find-holds _ db.events h.event h.event_found),
  find-any _ _ db.persons h.person h.person_found (find-holds _ db.persons h.person h.person_found),
  find-any _ _ db.event_responsibilities h.responsibility h.responsibility_found
      (==_refl h.responsibility.id),
)

pub kept_by_event :
    (id : ℕ) (payload : EventCreate) (db : Db)
    → ReferencesHold db
    → ReferencesHold (create_event id payload db).1
unfolding create_event
kept_by_event id payload db v =
    All-map (λ a (e, p, r). (still _ (create_event id payload db).0 db.events e, p, r))
      db.event_assignments v

pub kept_by_person :
    (id : ℕ) (payload : PersonCreate) (db : Db)
    → ReferencesHold db
    → (x : Result (List String) Person) → (create_person id payload db).0 ≡ x
    → ReferencesHold (create_person id payload db).1
kept_by_person id payload db v (ok p) h =
    let w = (create_person_sound id payload db p h).written in
    rw w (All-map (λ a (e, q, r). (e, still _ p db.persons q, r)) db.event_assignments v)
kept_by_person id payload db v (err codes) h = rw (create_person_atomic id payload db codes h) v

pub kept_by_assignment :
    (id : ℕ) (payload : EventAssignmentCreate) (db : Db)
    → ReferencesHold db
    → (x : Result AssignmentError (Option EventAssignment))
    → (create_event_assignment id payload db).0 ≡ x
    → ReferencesHold (create_event_assignment id payload db).1
kept_by_assignment id payload db v (ok a) h =
    let s = create_event_assignment_sound id payload db a h in
    rw s.written (new_assignment-Refers id payload db a _ s, v)
kept_by_assignment id payload db v (err e) h =
    rw (create_event_assignment_error id payload db e h).1 v

-- Every creation, of an event, a person or an assignment, whether it succeeds or raises, keeps
-- every assignment referring to rows that exist.
creations_keep_references :
    (id : ℕ) (event : EventCreate) (person : PersonCreate) (assignment : EventAssignmentCreate)
    (db : Db)
    → ReferencesHold db
    → ReferencesHold (create_event id event db).1
      × ReferencesHold (create_person id person db).1
      × ReferencesHold (create_event_assignment id assignment db).1
creations_keep_references id event person assignment db v = (
  kept_by_event id event db v,
  kept_by_person id person db v _ refl,
  kept_by_assignment id assignment db v _ refl,
)
