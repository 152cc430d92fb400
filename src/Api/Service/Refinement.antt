-- ===== src/Api/Service/Refinement.antt =====
-- The tables refine the catalogue.
use ketabdan_ms.Prelude.{
  ℕ, String, ◌≡◌, refl, sym, ap, ◌∙◌, inl, inr, Bool, true, false, Option, List, [], ◌∷◌,
  if◌then◌else◌, Bool-cases, nat_eq, string_eq,
}
use ketabdan_ms.Store.{User, Db}
use ketabdan_ms.Domain.{
  create_event_assignment, create_person, get_event, get_person, get_event_assignment,
  responsibility_by_code,
}
use ketabdan_ms.Api.{
  Reply, replied, failed, uncaught, World, Draws, Credentials, require_permission,
}
use ketabdan_ms.Api.Resources.{
  guarded, accept_event, answer_person, answer_assignment, list_roles, list_persons, post_person,
  list_events, read_event, post_event, list_event_assignments, read_event_assignment,
  post_event_assignment,
}
use ketabdan_ms.Api.Service.{
  Resource, get_roles, get_persons, new_person, get_events, get_one_event, new_event,
  get_assignments, get_one_assignment, new_event_assignment, Request, auth_login, auth_me, resource,
  Body, roles_body, persons_body, person_body, events_body, event_body, assignments_body,
  assignment_body, Call, permission_of, wrap, serve_resource, serve, run,
}
use ketabdan_ms.Accounts.Rows.{UniqueIds}
use ketabdan_ms.Api.Service.Access.{SameAccess, SameAccess-refl, admitted, require_permission-same}
use ketabdan_ms.Api.Service.Catalogue.{effect, perform, replay, view}
use ketabdan_ms.Api.Service.Effects.{
  accept_event-view, create_person-view, create_event_assignment-view,
}
use ketabdan_ms.Api.Service.Changes.{
  LoginChange, left, rehashed, Change, unchanged, logged_in, event_made, person_made,
  assignment_made, login-Change, serve-Change, answer_person-db, answer_assignment-db,
}
use ketabdan_ms.Api.Service.Invariants.{
  Kept, Change-Kept, Untouched, event-Untouched, person-Untouched, assignment-Untouched,
}

-- What the handler of a route leaves, once it runs
abbrev handled : Resource → ℕ → Db → Db
handled get_roles id db = db
handled get_persons id db = db
handled (new_person payload) id db = (answer_person db (create_person id payload db)).1
handled get_events id db = db
handled (get_one_event n) id db = db
handled (new_event body) id db = (accept_event id body db).1
handled get_assignments id db = db
handled (get_one_assignment n) id db = db
handled (new_event_assignment payload) id db =
    (answer_assignment (create_event_assignment id payload db)).1

record Handled (g : Reply User) (db after : Db) (answer : Reply Body × Db) : Type 0 where
  same : answer.1 ≡ (if admitted g then after else db)

guarded-Handled :
    {A : Type 0} (f : A → Body) (g : Reply User) (db : Db) (handler : Unit {0} → Reply A × Db)
    → Handled g db (handler tt).1 (wrap f (guarded g db handler))
guarded-Handled f (replied status user) db handler = record { same = refl }
guarded-Handled f (failed status detail header) db handler = record { same = refl }
guarded-Handled f (uncaught name) db handler = record { same = refl }

module _ (w : World) (collate : String → String → Bool) where
  serve_resource-Handled :
      (r : Resource) (d : Draws) (c : Option Credentials) (db : Db)
      → Handled
          (require_permission w (permission_of r) d.now c db)
          db
          (handled r d.id db)
          (serve_resource w collate r d c db)
  unfolding serve_resource list_roles list_persons post_person list_events read_event post_event
      list_event_assignments read_event_assignment post_event_assignment
  serve_resource-Handled get_roles d c db =
      guarded-Handled (λ x. roles_body x) (require_permission w "roles:read" d.now c db) db _
  serve_resource-Handled get_persons d c db =
      guarded-Handled (λ x. persons_body x) (require_permission w "people:read" d.now c db) db _
  serve_resource-Handled (new_person payload) d c db =
      guarded-Handled (λ x. person_body x) (require_permission w "people:create" d.now c db) db _
  serve_resource-Handled get_events d c db =
      guarded-Handled (λ x. events_body x) (require_permission w "events:read" d.now c db) db _
  serve_resource-Handled (get_one_event n) d c db =
      guarded-Handled (λ x. event_body x) (require_permission w "events:read" d.now c db) db _
  serve_resource-Handled (new_event body) d c db =
      guarded-Handled (λ x. event_body x) (require_permission w "events:create" d.now c db) db _
  serve_resource-Handled get_assignments d c db =
      guarded-Handled (λ x. assignments_body x) (require_permission w "assignments:read" d.now c db)
        db _
  serve_resource-Handled (get_one_assignment n) d c db =
      guarded-Handled (λ x. assignment_body x) (require_permission w "assignments:read" d.now c db)
        db _
  serve_resource-Handled (new_event_assignment payload) d c db =
      guarded-Handled (λ x. assignment_body x)
        (require_permission w "assignments:create" d.now c db) db _

-- The reference data that no request writes
abbrev SameReference : Db → Db → Type 0
SameReference start db =
    (db.roles ≡ start.roles) × (db.event_responsibilities ≡ start.event_responsibilities)

handled-view :
    (start db : Db) (r : Resource) (id : ℕ)
    → SameReference start db
    → view (handled r id db) ≡ effect start r id (view db)
unfolding responsibility_by_code
handled-view start db get_roles id s = refl
handled-view start db get_persons id s = refl
handled-view start db (new_person payload) id (s, t) =
    ap view (answer_person-db db (create_person id payload db))
    ∙ create_person-view id payload db
    ∙ rw s refl
handled-view start db get_events id s = refl
handled-view start db (get_one_event n) id s = refl
handled-view start db (new_event body) id s = accept_event-view id body db
handled-view start db get_assignments id s = refl
handled-view start db (get_one_assignment n) id s = refl
handled-view start db (new_event_assignment payload) id (s, t) =
    ap view (answer_assignment-db (create_event_assignment id payload db))
    ∙ create_event_assignment-view id payload db
    ∙ rw t refl

decided-view :
    (start db : Db) (r : Resource) (id : ℕ) (b b' : Bool)
    → SameReference start db
    → b ≡ b'
    → view (if b then handled r id db else db)
      ≡ (if b' then effect start r id (view db) else view db)
decided-view start db r id true true s e = handled-view start db r id s
decided-view start db r id true false s e = cc
decided-view start db r id false true s e = cc
decided-view start db r id false false s e = refl

module _ (w : World) (collate : String → String → Bool) where
  login-view : (db db' : Db) → LoginChange w db db' → view db' ≡ view db
  unfolding view get_event get_person get_event_assignment
  login-view db db' left = refl
  login-view db db' (rehashed salt name password row h) =
      elim (Bool-cases (w.hasher.check_needs_rehash row.password_hash)) [
        | inl e ↦ rw e refl
        | inr e ↦ rw e refl
      ]

  serve-view :
      (start db : Db) (r : Request) (d : Draws) (c : Option Credentials)
      → SameAccess start db
      → SameReference start db
      → view (serve w collate r d c db).1 ≡ perform w start r d c (view db)
  unfolding serve
  serve-view start db (auth_login username password) d c s t =
      login-view db _ (login-Change w d username password db)
  serve-view start db auth_me d c s t = refl
  serve-view start db (resource r) d c s t =
      ap view (serve_resource-Handled w collate r d c db).same
      ∙ decided-view start db r d.id _ _ t
          (sym (require_permission-same w start db s (permission_of r) d.now c))

  Untouched-SameReference :
      (start db db' : Db) → Untouched db db' → SameReference start db → SameReference start db'
  Untouched-SameReference start db db' u (s, t) = (u.roles ∙ s, u.responsibilities ∙ t)

  Change-SameReference :
      (start db db' : Db) → Change w db db' → SameReference start db → SameReference start db'
  Change-SameReference start db db' unchanged s = s
  Change-SameReference start db db' (logged_in _ left) s = s
  Change-SameReference start db db' (logged_in _ (rehashed salt name password row h)) s =
      elim (Bool-cases (w.hasher.check_needs_rehash row.password_hash)) [
        | inl e ↦ rw e s
        | inr e ↦ rw e s
      ]
  Change-SameReference start db db' (event_made id payload) s =
      Untouched-SameReference start db _ (event-Untouched id payload db) s
  Change-SameReference start db db' (person_made id payload) s =
      Untouched-SameReference start db _ (person-Untouched id payload db _ refl) s
  Change-SameReference start db db' (assignment_made id payload) s =
      Untouched-SameReference start db _ (assignment-Untouched id payload db _ refl) s

  run-replay :
      (start db : Db) (calls : List Call)
      → Kept start db
      → SameReference start db
      → view (run w collate calls db) ≡ replay w start calls (view db)
  unfolding run
  run-replay start db [] k s = refl
  run-replay start db (call ∷ calls) k s =
      let after = (serve w collate call.request call.draws call.credentials db).1 in
      let change = serve-Change w collate call.request call.draws call.credentials db in
      run-replay start after calls (Change-Kept w start db after change k)
        (Change-SameReference start db after change s)
      ∙ ap (λ v. replay w start calls v)
          (serve-view start db call.request call.draws call.credentials k.1 s)

  -- The tables refine the catalogue: after any requests, what ids lead to is what the abstract
  -- requests leave, where the roles, the responsibilities and who may do what are read once, in the
  -- tables at the start. Ids of users are unique there.
  pub run-view :
      (calls : List Call) (db : Db)
      → UniqueIds db.users
      → view (run w collate calls db) ≡ replay w db calls (view db)
  run-view calls db ids = run-replay db db calls (ids, SameAccess-refl db) (refl, refl)
