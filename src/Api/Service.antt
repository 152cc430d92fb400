-- ===== src/Api/Service.antt =====
-- The routers that apps/api/app/main.py includes, as one service: a request to one of the routes, with
-- what it brings, turns the tables into the tables after it and an answer.
pub mod Conformance
pub mod Access
pub mod Guard
pub mod Changes
pub mod Invariants
pub mod Effects
pub mod Refinement
pub mod Catalogue
use ketabdan_ms.Prelude.{
  ℕ, zero, suc, ◌+◌, ◌-◌, ◌*◌, ◌/◌, ◌%◌, ◌^◌, ◌≤◌, ◌<◌, String, ◌≡◌, refl, sym, ap, ◌∙◌, ◌≢◌, ◌↔◌,
  ◌⊎◌, inl, inr, Bool, true, false, not, ◌&&◌, ◌||◌, Option, none, some, List, [], ◌∷◌, ◌++◌, map,
  arith, eq_iff, ltb, leb, eqb, if◌then◌else◌, Bool-cases, Option-cases, ltb→lt, lt→ltb, leb→le, Eq,
  ◌==◌, nat_eq, string_eq, ==_refl, ==→≡, Result, ok, err, ◌>>=◌, >>=-eq-ok, length, length-append,
  find, keep, any, Any, elem,
}
use ketabdan_ms.Store.{Role, Event, Db}
use ketabdan_ms.Domain.{EventAssignmentCreate, PersonCreate}
use ketabdan_ms.Api.{
  Reply, replied, failed, uncaught, World, Draws, Credentials, TokenResponse, UserRead, map_reply,
  login, read_current_user,
}
use ketabdan_ms.Api.Resources.{
  PersonRead, EventAssignmentRead, EventBody, list_roles, list_persons, post_person, list_events,
  read_event, post_event, list_event_assignments, read_event_assignment, post_event_assignment,
}

-- The routes that ask for a permission
pub data Resource : Type 0 where
  get_roles : Resource
  get_persons : Resource
  new_person : PersonCreate → Resource
  get_events : Resource
  get_one_event : ℕ → Resource
  new_event : EventBody → Resource
  get_assignments : Resource
  get_one_assignment : ℕ → Resource
  new_event_assignment : EventAssignmentCreate → Resource

pub data Request : Type 0 where
  auth_login : (username password : String) → Request
  auth_me : Request
  resource : Resource → Request

pub data Body : Type 0 where
  token_body : TokenResponse → Body
  user_body : UserRead → Body
  roles_body : List Role → Body
  persons_body : List PersonRead → Body
  person_body : PersonRead → Body
  events_body : List Event → Body
  event_body : Event → Body
  assignments_body : List EventAssignmentRead → Body
  assignment_body : EventAssignmentRead → Body

pub record Call : Type 0 where
  pub request : Request
  pub draws : Draws
  pub credentials : Option Credentials

abbrev pub permission_of : Resource → String
permission_of get_roles = "roles:read"
permission_of get_persons = "people:read"
permission_of (new_person payload) = "people:create"
permission_of get_events = "events:read"
permission_of (get_one_event id) = "events:read"
permission_of (new_event body) = "events:create"
permission_of get_assignments = "assignments:read"
permission_of (get_one_assignment id) = "assignments:read"
permission_of (new_event_assignment payload) = "assignments:create"

-- The status that the client sees
abbrev pub status_of : {A : Type 0} → Reply A → ℕ
status_of (replied status a) = status
status_of (failed status detail header) = status
status_of (uncaught name) = 500

abbrev pub wrap : {A : Type 0} → (A → Body) → Reply A × Db → Reply Body × Db
wrap f (answer, db) = (map_reply f answer, db)

module _ (w : World) (collate : String → String → Bool) where
  unfoldable pub serve_resource : Resource → Draws → Option Credentials → Db → Reply Body × Db
  unfolding list_roles list_persons post_person list_events read_event post_event
      list_event_assignments read_event_assignment post_event_assignment
  serve_resource get_roles d c db = wrap (λ x. roles_body x) (list_roles w collate d c db)
  serve_resource get_persons d c db = wrap (λ x. persons_body x) (list_persons w collate d c db)
  serve_resource (new_person payload) d c db =
      wrap (λ x. person_body x) (post_person w collate d c payload db)
  serve_resource get_events d c db = wrap (λ x. events_body x) (list_events w collate d c db)
  serve_resource (get_one_event id) d c db =
      wrap (λ x. event_body x) (read_event w collate d c id db)
  serve_resource (new_event body) d c db =
      wrap (λ x. event_body x) (post_event w collate d c body db)
  serve_resource get_assignments d c db =
      wrap (λ x. assignments_body x) (list_event_assignments w collate d c db)
  serve_resource (get_one_assignment id) d c db =
      wrap (λ x. assignment_body x) (read_event_assignment w collate d c id db)
  serve_resource (new_event_assignment payload) d c db =
      wrap (λ x. assignment_body x) (post_event_assignment w collate d c payload db)

  unfoldable pub serve : Request → Draws → Option Credentials → Db → Reply Body × Db
  unfolding login read_current_user serve_resource
  serve (auth_login username password) d c db =
      wrap (λ x. token_body x) (login w d username password db)
  serve auth_me d c db = (map_reply (λ x. user_body x) (read_current_user w d.now c db), db)
  serve (resource r) d c db = serve_resource r d c db

  -- The tables after the calls, the first call first
  unfoldable pub run : List Call → Db → Db
  unfolding serve
  run [] db = db
  run (call ∷ calls) db = run calls (serve call.request call.draws call.credentials db).1
