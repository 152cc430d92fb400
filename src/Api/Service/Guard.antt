-- ===== src/Api/Service/Guard.antt =====
-- What the guard of a route lets through.
use ketabdan_ms.Prelude.{
  ℕ, String, ◌≡◌, refl, ◌⊎◌, inl, inr, Bool, true, Option, none, Bool-cases, nat_eq, string_eq,
}
use ketabdan_ms.Store.{User, Db}
use ketabdan_ms.Accounts.{is_secure_auth_secret}
use ketabdan_ms.Accounts.Authorization.{user_has_permission}
use ketabdan_ms.Api.{
  Reply, replied, failed, unauthorized, generic_403_detail, World, Draws, Credentials,
  get_current_user, require_permission,
}
use ketabdan_ms.Api.Authentication.{get_current_user_uniform}
use ketabdan_ms.Api.Resources.{
  guarded, list_roles, list_persons, post_person, list_events, read_event, post_event,
  list_event_assignments, read_event_assignment, post_event_assignment,
}
use ketabdan_ms.Api.Service.{
  Resource, get_roles, get_persons, new_person, get_events, get_one_event, new_event,
  get_assignments, get_one_assignment, new_event_assignment, Body, permission_of, status_of, wrap,
  serve_resource,
}

module _ (w : World) where
  -- The user of the request is known and active, and a role of theirs has the permission.
  abbrev pub Permitted : String → ℕ → Option Credentials → Db → Type 0
  Permitted permission now c db =
      (user : User) × (get_current_user w now c db ≡ replied 200 user)
      × (user_has_permission db user permission ≡ true)

  pub require_permission-cases :
      (permission : String) (now : ℕ) (c : Option Credentials) (db : Db)
      → is_secure_auth_secret w.settings ≡ true
      → Permitted permission now c db
        ⊎ ((require_permission w permission now c db ≡ unauthorized)
            ⊎ (require_permission w permission now c db ≡ failed 403 generic_403_detail none))
  unfolding require_permission
  require_permission-cases permission now c db secure =
      elim (get_current_user_uniform w now c db secure) [
        | inl (user, e) ↦ elim (Bool-cases (user_has_permission db user permission)) [
          | inl h ↦ inl (user, e, h)
          | inr h ↦ inr (inr (rw (e, h) refl))
        ]
        | inr e ↦ inr (inl (rw e refl))
      ]

  -- Either the request is permitted, or the answer is 401 or 403 and the tables stay.
  abbrev pub Guarded : String → ℕ → Option Credentials → Db → Reply Body × Db → Type 0
  Guarded permission now c db answer =
      Permitted permission now c db
      ⊎ (((status_of answer.0 ≡ 401) ⊎ (status_of answer.0 ≡ 403)) × (answer.1 ≡ db))

  guarded-Guarded :
      {A : Type 0} (f : A → Body) (permission : String) (now : ℕ) (c : Option Credentials) (db : Db)
      (handler : Unit {0} → Reply A × Db)
      → is_secure_auth_secret w.settings ≡ true
      → Guarded permission now c db
          (wrap f (guarded (require_permission w permission now c db) db handler))
  guarded-Guarded f permission now c db handler secure =
      elim (require_permission-cases permission now c db secure) [
        | inl p ↦ inl p
        | inr (inl e) ↦ inr (rw e (inl refl, refl))
        | inr (inr e) ↦ inr (rw e (inr refl, refl))
      ]

  -- With a secure secret, each route below the guards answers 401 or 403 and leaves every table as
  -- it is, unless the credentials are those of a known and active user and one of the user's
  -- application roles has the permission of the route.
  pub serve_resource-Guarded :
      (collate : String → String → Bool) (r : Resource) (d : Draws) (c : Option Credentials)
      (db : Db)
      → is_secure_auth_secret w.settings ≡ true
      → Guarded (permission_of r) d.now c db (serve_resource w collate r d c db)
  unfolding serve_resource list_roles list_persons post_person list_events read_event post_event
      list_event_assignments read_event_assignment post_event_assignment
  serve_resource-Guarded collate get_roles d c db s = guarded-Guarded _ _ _ _ _ _ s
  serve_resource-Guarded collate get_persons d c db s = guarded-Guarded _ _ _ _ _ _ s
  serve_resource-Guarded collate (new_person payload) d c db s = guarded-Guarded _ _ _ _ _ _ s
  serve_resource-Guarded collate get_events d c db s = guarded-Guarded _ _ _ _ _ _ s
  serve_resource-Guarded collate (get_one_event id) d c db s = guarded-Guarded _ _ _ _ _ _ s
  serve_resource-Guarded collate (new_event body) d c db s = guarded-Guarded _ _ _ _ _ _ s
  serve_resource-Guarded collate get_assignments d c db s = guarded-Guarded _ _ _ _ _ _ s
  serve_resource-Guarded collate (get_one_assignment id) d c db s = guarded-Guarded _ _ _ _ _ _ s
  serve_resource-Guarded collate (new_event_assignment payload) d c db s =
      guarded-Guarded _ _ _ _ _ _ s
