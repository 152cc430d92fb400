-- ===== src/Api/Service/Changes.antt =====
-- What a request can do to the tables, as a relation, and what every sequence of requests keeps.
use ketabdan_ms.Prelude.{
  ℕ, String, ◌≡◌, refl, inl, inr, Bool, not, ◌||◌, Option, none, some, List, [], ◌∷◌, Bool-cases,
  ◌==◌, nat_eq, string_eq, Result, ok, err,
}
use ketabdan_ms.Store.{User, Db, Person, EventAssignment}
use ketabdan_ms.Accounts.{
  normalize_username, named, is_secure_auth_secret, verify_password, admit, attempt, authenticate,
  upgraded, saved, AuthError, authentication_error, insecure_secret_error,
}
use ketabdan_ms.Domain.{
  EventCreate, create_event, EventAssignmentCreate, create_event_assignment, PersonCreate,
  create_person, AssignmentError, event_not_found, person_not_found, unknown_responsibility,
}
use ketabdan_ms.Api.{
  Reply, replied, failed, uncaught, World, Draws, Credentials, answer_login, login,
}
use ketabdan_ms.Api.Resources.{
  guarded, EventBody, accept_event, answer_person, answer_assignment, list_roles, list_persons,
  post_person, list_events, read_event, post_event, list_event_assignments, read_event_assignment,
  post_event_assignment,
}
use ketabdan_ms.Api.Service.{
  Resource, get_roles, get_persons, new_person, get_events, get_one_event, new_event,
  get_assignments, get_one_assignment, new_event_assignment, Request, auth_login, auth_me, resource,
  Body, Call, wrap, serve_resource, serve, run,
}

pub answer_person-db :
    (db : Db) (r : Result (List String) Person × Db) → (answer_person db r).1 ≡ r.1
answer_person-db db (ok p, db') = refl
answer_person-db db (err codes, db') = refl

pub answer_assignment-db :
    (r : Result AssignmentError (Option EventAssignment) × Db) → (answer_assignment r).1 ≡ r.1
answer_assignment-db (ok (some a), db) = refl
answer_assignment-db (ok none, db) = refl
answer_assignment-db (err (event_not_found id), db) = refl
answer_assignment-db (err (person_not_found id), db) = refl
answer_assignment-db (err (unknown_responsibility code), db) = refl

module _ (w : World) where
  -- A login writes nothing but the hash of the row that has its name.
  pub data LoginChange (db : Db) : Db → Type 0 where
    left : LoginChange db db
    rehashed :
        (salt : ℕ) (name password : String) (row : User)
        → named db name ≡ some row
        → LoginChange db (
            saved w.unicode w.hasher w.settings row.password_hash
              (upgraded w.unicode w.hasher w.settings salt password row)
              db)

  pub data Change (db : Db) : Db → Type 0 where
    unchanged : Change db db
    logged_in : (db' : Db) → LoginChange db db' → Change db db'
    event_made : (id : ℕ) (payload : EventCreate) → Change db (create_event id payload db).1
    person_made : (id : ℕ) (payload : PersonCreate) → Change db (create_person id payload db).1
    assignment_made :
        (id : ℕ) (payload : EventAssignmentCreate)
        → Change db (create_event_assignment id payload db).1

  admit-Change :
      (salt : ℕ) (name password : String) (db : Db) (row : User)
      → named db name ≡ some row
      → LoginChange db (admit w.unicode w.hasher w.settings salt password db row).db
  admit-Change salt name password db row h =
      elim (Bool-cases
        (not (verify_password w.hasher row.password_hash password) || not row.active)) [
          | inl e ↦ rw e left
          | inr e ↦ rw e (rehashed salt name password row h)
        ]

  attempt-Change :
      (salt : ℕ) (name password : String) (db : Db) (o : Option User)
      → named db name ≡ o
      → LoginChange db (attempt w.unicode w.hasher w.settings salt password db o).db
  attempt-Change salt name password db none h = left
  attempt-Change salt name password db (some row) h = admit-Change salt name password db row h

  authenticate-Change :
      (salt : ℕ) (username password : String) (db : Db)
      → LoginChange db (authenticate w.unicode w.hasher w.settings salt username password db).db
  unfolding authenticate
  authenticate-Change salt username password db =
      elim (Bool-cases (is_secure_auth_secret w.settings)) [
        | inl e ↦
            rw e (attempt-Change salt (normalize_username w.unicode username) password db _ refl)
        | inr e ↦ rw e left
      ]

  answer_login-db :
      (now : ℕ) (db : Db) (verified : List String) (x : Result AuthError User)
      → (answer_login w now (record { result = x; db = db; verified = verified })).1 ≡ db
  answer_login-db now db verified (ok user) = refl
  answer_login-db now db verified (err authentication_error) = refl
  answer_login-db now db verified (err insecure_secret_error) = refl

  pub login-Change :
      (d : Draws) (username password : String) (db : Db)
      → LoginChange db (login w d username password db).1
  unfolding login
  login-Change d username password db =
      let a = authenticate w.unicode w.hasher w.settings d.salt username password db in
      elim (Bool-cases ((username == "") || (password == ""))) [
        | inl e ↦ rw e left
        | inr e ↦
            rw (e, answer_login-db d.now a.db a.verified a.result)
              (authenticate-Change d.salt username password db)
      ]

  accept_event-Change :
      (id : ℕ) (body : EventBody) (db : Db) → Change db (accept_event id body db).1
  accept_event-Change id body db = elim (Bool-cases body.has_offset) [
    | inl e ↦ rw e (event_made id body.event)
    | inr e ↦ rw e unchanged
  ]

  answer_person-Change :
      (id : ℕ) (payload : PersonCreate) (db : Db)
      → Change db (answer_person db (create_person id payload db)).1
  answer_person-Change id payload db =
      rw (answer_person-db db (create_person id payload db)) (person_made id payload)

  answer_assignment-Change :
      (id : ℕ) (payload : EventAssignmentCreate) (db : Db)
      → Change db (answer_assignment (create_event_assignment id payload db)).1
  answer_assignment-Change id payload db =
      rw (answer_assignment-db (create_event_assignment id payload db)) (assignment_made id payload)

  record Leads (db : Db) (answer : Reply Body × Db) : Type 0 where
    change : Change db answer.1

  guarded-Change :
      {A : Type 0} (f : A → Body) (g : Reply User) (db : Db) (handler : Unit {0} → Reply A × Db)
      → Change db (handler tt).1
      → Leads db (wrap f (guarded g db handler))
  guarded-Change f (replied status user) db handler v = record { change = v }
  guarded-Change f (failed status detail header) db handler v = record { change = unchanged }
  guarded-Change f (uncaught name) db handler v = record { change = unchanged }

  module _ (collate : String → String → Bool) where
    serve_resource-Change :
        (r : Resource) (d : Draws) (c : Option Credentials) (db : Db)
        → Leads db (serve_resource w collate r d c db)
    unfolding serve_resource list_roles list_persons post_person list_events read_event post_event
        list_event_assignments read_event_assignment post_event_assignment
    serve_resource-Change get_roles d c db = search (guarded-Change, unchanged)
    serve_resource-Change get_persons d c db = search (guarded-Change, unchanged)
    serve_resource-Change (new_person payload) d c db =
        search (guarded-Change, answer_person-Change)
    serve_resource-Change get_events d c db = search (guarded-Change, unchanged)
    serve_resource-Change (get_one_event id) d c db = search (guarded-Change, unchanged)
    serve_resource-Change (new_event body) d c db = search (guarded-Change, accept_event-Change)
    serve_resource-Change get_assignments d c db = search (guarded-Change, unchanged)
    serve_resource-Change (get_one_assignment id) d c db = search (guarded-Change, unchanged)
    serve_resource-Change (new_event_assignment payload) d c db =
        search (guarded-Change, answer_assignment-Change)

    pub serve-Change :
        (r : Request) (d : Draws) (c : Option Credentials) (db : Db)
        → Change db (serve w collate r d c db).1
    unfolding serve
    serve-Change (auth_login username password) d c db =
        logged_in _ (login-Change d username password db)
    serve-Change auth_me d c db = unchanged
    serve-Change (resource r) d c db = (serve_resource-Change r d c db).change

    -- What each change keeps, every run keeps.
    pub run-keeps :
        (P : Db → Type 0)
        → ((db db' : Db) → Change db db' → P db → P db')
        → (calls : List Call) (db : Db) → P db
        → P (run w collate calls db)
    unfolding run
    run-keeps P step [] db v = v
    run-keeps P step (call ∷ calls) db v =
        run-keeps P step calls (serve w collate call.request call.draws call.credentials db).1
          (step db _ (serve-Change call.request call.draws call.credentials db) v)
