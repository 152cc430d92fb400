-- ===== src/Api/Service/Invariants.antt =====
-- What holds after every sequence of requests.
use ketabdan_ms.Prelude.{
  ℕ, String, ◌≡◌, refl, sym, ap, ◌∙◌, inl, inr, Bool, Option, some, List, Bool-cases, nat_eq,
  string_eq, Result, ok, err,
}
use ketabdan_ms.Store.{User, Person, EventAssignment, Db}
use ketabdan_ms.Accounts.{named, upgraded, saved, update}
use ketabdan_ms.Accounts.Authorization.{user_has_permission}
use ketabdan_ms.Domain.{
  EventCreate, create_event, EventAssignmentCreate, create_event_assignment, PersonCreate,
  create_person, AssignmentError,
}
use ketabdan_ms.Domain.Assignments.{create_event_assignment_sound, create_event_assignment_error}
use ketabdan_ms.Domain.Members.{create_person_sound}
use ketabdan_ms.Domain.Refusals.{create_person_atomic}
use ketabdan_ms.Domain.Integrity.{ReferencesHold, kept_by_event, kept_by_person, kept_by_assignment}
use ketabdan_ms.Api.{World, Credentials, require_permission}
use ketabdan_ms.Api.Service.{Call, run}
use ketabdan_ms.Accounts.Rows.{UniqueIds, update-UniqueIds, with_id, found_by_id}
use ketabdan_ms.Api.Service.Access.{
  SameAccess, SameAccess-refl, SameAccess-trans, key, update-key, same-user_has_permission,
  admitted, require_permission-same,
}
use ketabdan_ms.Api.Service.Changes.{
  left, rehashed, Change, unchanged, logged_in, event_made, person_made, assignment_made, run-keeps,
}

-- The tables that no business endpoint writes
pub record Untouched (db db' : Db) : Type 0 where
  pub users : db'.users ≡ db.users
  pub grants : db'.user_application_roles ≡ db.user_application_roles
  pub links : db'.application_role_permissions ≡ db.application_role_permissions
  pub permissions : db'.permissions ≡ db.permissions
  pub roles : db'.roles ≡ db.roles
  pub responsibilities : db'.event_responsibilities ≡ db.event_responsibilities

pub event-Untouched :
    (id : ℕ) (payload : EventCreate) (db : Db) → Untouched db (create_event id payload db).1
unfolding create_event
event-Untouched id payload db = record {
  users = refl;
  grants = refl;
  links = refl;
  permissions = refl;
  roles = refl;
  responsibilities = refl;
}

pub person-Untouched :
    (id : ℕ) (payload : PersonCreate) (db : Db) (x : Result (List String) Person)
    → (create_person id payload db).0 ≡ x
    → Untouched db (create_person id payload db).1
person-Untouched id payload db (ok p) h =
    let written = (create_person_sound id payload db p h).written in
    rw written (record {
      users = refl;
      grants = refl;
      links = refl;
      permissions = refl;
      roles = refl;
      responsibilities = refl;
    })
person-Untouched id payload db (err codes) h = rw (create_person_atomic id payload db codes h) (
    (record {
      users = refl;
      grants = refl;
      links = refl;
      permissions = refl;
      roles = refl;
      responsibilities = refl;
    }))

pub assignment-Untouched :
    (id : ℕ) (payload : EventAssignmentCreate) (db : Db)
    (x : Result AssignmentError (Option EventAssignment))
    → (create_event_assignment id payload db).0 ≡ x
    → Untouched db (create_event_assignment id payload db).1
assignment-Untouched id payload db (ok a) h =
    let written = (create_event_assignment_sound id payload db a h).written in
    rw written (record {
      users = refl;
      grants = refl;
      links = refl;
      permissions = refl;
      roles = refl;
      responsibilities = refl;
    })
assignment-Untouched id payload db (err e) h =
    rw (create_event_assignment_error id payload db e h).1 (
      (record {
        users = refl;
        grants = refl;
        links = refl;
        permissions = refl;
        roles = refl;
        responsibilities = refl;
      }))

-- Unique ids, and the same access as in the tables at the start
abbrev pub Kept : Db → Db → Type 0
Kept start db = UniqueIds db.users × SameAccess start db

Untouched-Kept : (start db db' : Db) → Untouched db db' → Kept start db → Kept start db'
Untouched-Kept start db db' u (ids, s) = (
  rw u.users ids,
  record {
    users = λ n. s.users n ∙ ap (λ xs. key (with_id n xs)) (sym u.users);
    grants = s.grants ∙ sym u.grants;
    links = s.links ∙ sym u.links;
    permissions = s.permissions ∙ sym u.permissions;
  },
)

module _ (w : World) where
  rehash-Kept :
      (start db : Db) (salt : ℕ) (name password : String) (row : User)
      → named db name ≡ some row
      → Kept start db
      → Kept start (
          saved w.unicode w.hasher w.settings row.password_hash
            (upgraded w.unicode w.hasher w.settings salt password row)
            db)
  rehash-Kept start db salt name password row h (ids, s) =
      let user = record row { password_hash = w.hasher.hash salt password } in
      elim (Bool-cases (w.hasher.check_needs_rehash row.password_hash)) [
        | inl e ↦ rw e (
          update-UniqueIds user db.users ids,
          SameAccess-trans start db (record db { users = update user db.users }) s
              (record {
                users = λ n.
                    update-key user row db.users n (found_by_id _ db.users row ids h) refl refl;
                grants = refl;
                links = refl;
                permissions = refl;
              }),
        )
        | inr e ↦ rw e (ids, s)
      ]

  pub Change-Kept : (start db db' : Db) → Change w db db' → Kept start db → Kept start db'
  Change-Kept start db db' unchanged v = v
  Change-Kept start db db' (logged_in _ left) v = v
  Change-Kept start db db' (logged_in _ (rehashed salt name password row h)) v =
      rehash-Kept start db salt name password row h v
  Change-Kept start db db' (event_made id payload) v =
      Untouched-Kept start db _ (event-Untouched id payload db) v
  Change-Kept start db db' (person_made id payload) v =
      Untouched-Kept start db _ (person-Untouched id payload db _ refl) v
  Change-Kept start db db' (assignment_made id payload) v =
      Untouched-Kept start db _ (assignment-Untouched id payload db _ refl) v

  module _ (collate : String → String → Bool) where
    pub run-Kept :
        (calls : List Call) (db : Db) → UniqueIds db.users → Kept db (run w collate calls db)
    run-Kept calls db ids =
        run-keeps w collate (λ x. Kept db x) (λ a b. Change-Kept db a b) calls db
          (ids, SameAccess-refl db)

    -- No sequence of requests changes what anyone may do: every user has the same permissions after
    -- it, and every guard lets the same credentials through at the same time, if ids are unique.
    pub run-permissions :
        (calls : List Call) (db : Db) (user : User) (permission : String) (now : ℕ)
        (c : Option Credentials)
        → UniqueIds db.users
        → (user_has_permission (run w collate calls db) user permission
            ≡ user_has_permission db user permission)
          × (admitted (require_permission w permission now c (run w collate calls db))
              ≡ admitted (require_permission w permission now c db))
    run-permissions calls db user permission now c ids =
        let (_, s) = run-Kept calls db ids in
        (
          sym (same-user_has_permission db _ user user permission s refl),
          sym (require_permission-same w db _ s permission now c),
        )

  Change-ReferencesHold : (db db' : Db) → Change w db db' → ReferencesHold db → ReferencesHold db'
  Change-ReferencesHold db db' unchanged v = v
  Change-ReferencesHold db db' (logged_in _ left) v = v
  Change-ReferencesHold db db' (logged_in _ (rehashed salt name password row h)) v =
      elim (Bool-cases (w.hasher.check_needs_rehash row.password_hash)) [
        | inl e ↦ rw e v
        | inr e ↦ rw e v
      ]
  Change-ReferencesHold db db' (event_made id payload) v = kept_by_event id payload db v
  Change-ReferencesHold db db' (person_made id payload) v = kept_by_person id payload db v _ refl
  Change-ReferencesHold db db' (assignment_made id payload) v =
      kept_by_assignment id payload db v _ refl

  -- Every sequence of requests keeps every assignment referring to rows that exist.
  run-ReferencesHold :
      (collate : String → String → Bool) (calls : List Call) (db : Db)
      → ReferencesHold db
      → ReferencesHold (run w collate calls db)
  run-ReferencesHold collate calls db v =
      run-keeps w collate (λ x. ReferencesHold x) Change-ReferencesHold calls db v
