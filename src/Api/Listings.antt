-- ===== src/Api/Listings.antt =====
-- The order of the lists in the answers.
use ketabdan_ms.Prelude.{String, ◌≡◌, refl, Bool, true, false, Option, arith, nat_eq, string_eq}
use mathlib.Core.List.{List, Perm}
use ketabdan_ms.Prelude.Sorting.{sort, IsSorted, sort-perm, sort-IsSorted}
use ketabdan_ms.Store.{User, Event, Db}
use ketabdan_ms.Api.{replied, World, Draws, Credentials, require_permission}
use ketabdan_ms.Api.Resources.{event_le, list_events}

event_le_total : (a b : Event) → event_le a b ≡ false → event_le b a ≡ true
event_le_total a b h = ground arith

event_le_trans : (a b c : Event) → event_le a b ≡ true → event_le b c ≡ true → event_le a c ≡ true
event_le_trans a b c h h' = ground arith

module _ (w : World) (collate : String → String → Bool) where
  -- Whoever may read events gets every stored event once, ordered by the planned time and then by
  -- the id.
  list_events-IsSorted :
      (d : Draws) (c : Option Credentials) (db : Db) (user : User)
      → require_permission w "events:read" d.now c db ≡ replied 200 user
      → (rows : List Event) × (list_events w collate d c db ≡ (replied 200 rows, db))
        × Perm rows db.events
        × IsSorted event_le rows
  unfolding list_events
  list_events-IsSorted d c db user h = (
    sort event_le db.events,
    rw h refl,
    sort-perm event_le db.events,
    sort-IsSorted event_le event_le_total event_le_trans db.events,
  )
