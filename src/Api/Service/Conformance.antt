-- ===== src/Api/Service/Conformance.antt =====
-- The rows that requests write meet the check constraints and the foreign keys of the models.
use ketabdan_ms.Prelude.{
  ℕ, String, ◌≡◌, refl, inl, inr, Bool, true, Option, List, [], ◌∷◌, ◌++◌, map, arith, Bool-cases,
  ◌==◌, nat_eq, string_eq, ==_refl, Result, ok, err, any, All, elem,
}
use ketabdan_ms.Prelude.Membership.{All-map}
use ketabdan_ms.Store.{Person, Role, EventAssignment, Db}
use ketabdan_ms.Domain.{
  EventCreate, create_event, EventAssignmentCreate, create_event_assignment, PersonCreate,
  create_person, AssignmentError,
}
use ketabdan_ms.Domain.Assignments.{create_event_assignment_sound, create_event_assignment_error}
use ketabdan_ms.Domain.Members.{create_person_sound}
use ketabdan_ms.Domain.Refusals.{create_person_atomic}
use ketabdan_ms.Domain.Integrity.{ReferencesHold, kept_by_event, kept_by_person, kept_by_assignment}
use ketabdan_ms.Api.{World}
use ketabdan_ms.Api.Service.{Call, run}
use ketabdan_ms.Api.Service.Changes.{
  left, rehashed, Change, unchanged, logged_in, event_made, person_made, assignment_made, run-keeps,
}
use ketabdan_ms.Schema.Models.{event_status_values, approval_status_values}

-- Every person's role is a membership of rows that exist.
abbrev pub MembersHold : Db → Type 0
MembersHold db =
    All
      (λ m.
        (any (λ p. p.id == m.person_id) db.persons ≡ true)
        × (any (λ r. r.id == m.role_id) db.roles ≡ true))
      db.person_roles

-- The checks of `event_model` and `event_assignment_model`, and the foreign keys of
-- `person_role_model` and `event_assignment_model`.
pub record Conforms (db : Db) : Type 0 where
  pub statuses : All (λ e. elem e.status event_status_values ≡ true) db.events
  pub approvals :
      All (λ a. elem a.approval_status approval_status_values ≡ true) db.event_assignments
  pub members : MembersHold db
  pub references : ReferencesHold db

event-Conforms :
    (id : ℕ) (payload : EventCreate) (db : Db)
    → Conforms db
    → Conforms (create_event id payload db).1
unfolding create_event
event-Conforms id payload db v = record {
  statuses = (refl, v.statuses);
  approvals = v.approvals;
  members = v.members;
  references = kept_by_event id payload db v.references;
}

new_members :
    (p : Person) (db : Db) (roles : List Role)
    → All (λ r. any (λ x. x.id == r.id) db.roles ≡ true) roles
    → All
        (λ m.
          (any (λ x. x.id == m.person_id) (p ∷ db.persons) ≡ true)
          × (any (λ r. r.id == m.role_id) db.roles ≡ true))
        db.person_roles
    → All
        (λ m.
          (any (λ x. x.id == m.person_id) (p ∷ db.persons) ≡ true)
          × (any (λ r. r.id == m.role_id) db.roles ≡ true))
        (map (λ r. record { person_id = p.id; role_id = r.id }) roles ++ db.person_roles)
new_members p db [] v old = old
new_members p db (r ∷ roles) (h, v) old =
    ((rw (==_refl p.id) refl, h), new_members p db roles v old)

person-Conforms :
    (id : ℕ) (payload : PersonCreate) (db : Db) (x : Result (List String) Person)
    → (create_person id payload db).0 ≡ x
    → Conforms db
    → Conforms (create_person id payload db).1
person-Conforms id payload db (ok p) h v =
    let s = create_person_sound id payload db p h in
    let kept = kept_by_person id payload db v.references (ok p) h in
    let references = rw s.written at kept in
    rw s.written (record {
      statuses = v.statuses;
      approvals = v.approvals;
      members =
          new_members p db s.roles s.stored
            (All-map (λ m (a, b). (ground arith, b)) db.person_roles v.members);
      references = references;
    })
person-Conforms id payload db (err codes) h v = rw (create_person_atomic id payload db codes h) v

assignment-Conforms :
    (id : ℕ) (payload : EventAssignmentCreate) (db : Db)
    (x : Result AssignmentError (Option EventAssignment))
    → (create_event_assignment id payload db).0 ≡ x
    → Conforms db
    → Conforms (create_event_assignment id payload db).1
assignment-Conforms id payload db (ok a) h v =
    let s = create_event_assignment_sound id payload db a h in
    let kept = kept_by_assignment id payload db v.references (ok a) h in
    let references = rw s.written at kept in
    rw s.written (record {
      statuses = v.statuses;
      approvals = (refl, v.approvals);
      members = v.members;
      references = references;
    })
assignment-Conforms id payload db (err e) h v =
    rw (create_event_assignment_error id payload db e h).1 v

module _ (w : World) where
  Change-Conforms : (db db' : Db) → Change w db db' → Conforms db → Conforms db'
  Change-Conforms db db' unchanged v = v
  Change-Conforms db db' (logged_in _ left) v = v
  Change-Conforms db db' (logged_in _ (rehashed salt name password row h)) v =
      elim (Bool-cases (w.hasher.check_needs_rehash row.password_hash)) [
        | inl e ↦ rw e (record {
          statuses = v.statuses;
          approvals = v.approvals;
          members = v.members;
          references = v.references;
        })
        | inr e ↦ rw e v
      ]
  Change-Conforms db db' (event_made id payload) v = event-Conforms id payload db v
  Change-Conforms db db' (person_made id payload) v = person-Conforms id payload db _ refl v
  Change-Conforms db db' (assignment_made id payload) v = assignment-Conforms id payload db _ refl v

  -- No sequence of requests leaves a row that the models' constraints forbid: the status of every
  -- event and the approval of every assignment are of the models' values, and every membership and
  -- every assignment refers to rows that exist, if that was so at the start.
  pub run-Conforms :
      (collate : String → String → Bool) (calls : List Call) (db : Db)
      → Conforms db
      → Conforms (run w collate calls db)
  run-Conforms collate calls db v = run-keeps w collate Conforms Change-Conforms calls db v
