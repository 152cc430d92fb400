-- ===== src/Api/Service/Catalogue.antt =====
-- What the service promises about events, persons and assignments: three maps from ids to rows, and
-- what a request does to them.
use ketabdan_ms.Prelude.{
  ℕ, String, Bool, true, ◌&&◌, Option, none, some, List, [], ◌∷◌, if◌then◌else◌, ◌==◌, nat_eq,
  string_eq, any,
}
use ketabdan_ms.Store.{
  Role, Person, Event, EventResponsibility, EventAssignment, Db, draft, pending,
}
use ketabdan_ms.Domain.{
  EventAssignmentCreate, PersonCreate, get_event, get_person, get_event_assignment,
  responsibility_by_code,
}
use ketabdan_ms.Api.{World, Draws, Credentials, require_permission}
use ketabdan_ms.Api.Service.{
  Resource, get_roles, get_persons, new_person, get_events, get_one_event, new_event,
  get_assignments, get_one_assignment, new_event_assignment, Request, auth_login, auth_me, resource,
  Call, permission_of,
}
use ketabdan_ms.Api.Service.Access.{admitted}
use ketabdan_ms.Api.Resources.{EventBody}

pub record Catalogue : Type 0 where
  pub events : ℕ → Option Event
  pub persons : ℕ → Option Person
  pub assignments : ℕ → Option EventAssignment

abbrev pub put : {A : Type 0} → ℕ → A → (ℕ → Option A) → ℕ → Option A
put id a f n = if id == n then some a else f n

-- Each requested code is the code of a role.
abbrev pub all_known : List Role → List String → Bool
all_known roles [] = true
all_known roles (c ∷ cs) = any (λ r. r.code == c) roles && all_known roles cs

abbrev pub with_person : ℕ → PersonCreate → List Role → Catalogue → Catalogue
with_person id payload roles before =
    if all_known roles payload.roles
    then record before {
      persons =
          put id
            (record {
              id = id;
              name = payload.name;
              phone = payload.phone;
              active = payload.active;
            })
            before.persons;
    }
    else before

abbrev pub with_event : ℕ → EventBody → Catalogue → Catalogue
with_event id body before =
    if body.has_offset
    then record before {
      events =
          put id
            (record {
              id = id;
              title = body.event.title;
              type = body.event.type;
              planned_at = body.event.planned_at;
              status = draft;
            })
            before.events;
    }
    else before

abbrev pub assign :
    ℕ
    → EventAssignmentCreate
    → Option Event
    → Option Person
    → Option EventResponsibility
    → Catalogue
    → Catalogue
assign id payload (some e) (some p) (some r) before = record before {
  assignments =
      put id
        (record {
          id = id;
          event_id = payload.event_id;
          person_id = payload.person_id;
          responsibility_id = r.id;
          approval_status = pending;
        })
        before.assignments;
}
assign id payload none p r before = before
assign id payload (some e) none r before = before
assign id payload (some e) (some p) none before = before

-- The effect of a route, where `reference` has the roles and the responsibilities
abbrev pub effect : Db → Resource → ℕ → Catalogue → Catalogue
effect reference get_roles id before = before
effect reference get_persons id before = before
effect reference (new_person payload) id before = with_person id payload reference.roles before
effect reference get_events id before = before
effect reference (get_one_event n) id before = before
effect reference (new_event body) id before = with_event id body before
effect reference get_assignments id before = before
effect reference (get_one_assignment n) id before = before
effect reference (new_event_assignment payload) id before =
    assign id payload (before.events payload.event_id) (before.persons payload.person_id)
      (responsibility_by_code reference payload.responsibility) before

module _ (w : World) where
  -- Who is let through is decided in the reference tables.
  abbrev pub perform : Db → Request → Draws → Option Credentials → Catalogue → Catalogue
  perform reference (auth_login username password) d c before = before
  perform reference auth_me d c before = before
  perform reference (resource r) d c before =
      if admitted (require_permission w (permission_of r) d.now c reference)
      then effect reference r d.id before
      else before

  abbrev pub replay : Db → List Call → Catalogue → Catalogue
  replay reference [] before = before
  replay reference (call ∷ calls) before =
      replay reference calls (perform reference call.request call.draws call.credentials before)

-- The abstract view of the tables
unfoldable pub view : Db → Catalogue
view db = record {
  events = λ n. get_event db n;
  persons = λ n. get_person db n;
  assignments = λ n. get_event_assignment db n;
}
