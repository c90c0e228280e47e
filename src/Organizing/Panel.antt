-- ===== src/Organizing/Panel.antt =====
-- The page of the organizers, frontend/src/components/Manage.tsx, and its form of a venue,
-- VenueForm.tsx. The flag that a request runs is left out, and so is the request of the analytics.
use ki_ticket.Base.{ℕ, String, Option, none, some, List, [], ◌∷◌, ◌++◌, map, ◌==◌, if◌then◌else◌}
use ki_ticket.Entities.{Role, customer, Venue, is_admin}
use ki_ticket.Accounts.{UserSummary}
use ki_ticket.Reserving.{Reply, got, refused}
use ki_ticket.Organizing.{EventSummary}

pub record VenueForm : Type 0 where
  pub name : String
  pub city : String
  pub address : String
  pub error : String

-- The body of `POST /venues`.
pub record VenueBody : Type 0 where
  pub name : String
  pub city : String
  pub address : String

pub record Panel : Type 0 where
  pub venues : List Venue
  pub events : List EventSummary
  pub selected_event : Option ℕ
  pub users : List UserSummary
  pub message : String
  pub error : String

abbrev pub with_message : String → Panel → Panel
with_message text panel = record panel { error = ""; message = text }

abbrev pub failed : String → Panel → Panel
failed message panel = record panel { error = message }

-- The `done` of the form of a venue and of the form of an event.
abbrev pub venue_done : Venue → Panel → Panel
venue_done venue panel =
    with_message "The venue is made" (record panel { venues = panel.venues ++ venue ∷ [] })

unfoldable pub event_done : EventSummary → Panel → Panel
event_done event panel =
    with_message "The event is priced and published"
      (record panel { events = panel.events ++ event ∷ []; selected_event = some event.id })

abbrev pub venue_body : VenueForm → VenueBody
venue_body form = record { name = form.name; city = form.city; address = form.address }

abbrev pub after_venue : Reply Venue → VenueForm → Panel → VenueForm × Panel
after_venue (got venue) form panel =
    (record { name = ""; city = ""; address = ""; error = "" }, venue_done venue panel)
after_venue (refused message) form panel = (record form { error = message }, panel)

-- `submit` of the form of a venue, with the body that it sends.
unfoldable pub submit_venue : Reply Venue → VenueForm → Panel → VenueBody × (VenueForm × Panel)
submit_venue reply form panel = (venue_body form, after_venue reply form panel)

-- The three replies with which the page opens.
pub record Opening : Type 0 where
  pub venues : Reply (List Venue)
  pub events : Reply (List EventSummary)
  pub users : Reply (List UserSummary)

abbrev pub first_id : List EventSummary → Option ℕ
first_id [] = none
first_id (e ∷ rest) = some e.id

abbrev pub with_users : Reply (List UserSummary) → Panel → Panel
with_users (got users) panel = record panel { users = users }
with_users (refused message) panel = failed message panel

-- `Promise.all` of the venues and the events: both are shown, or neither.
abbrev pub with_lists :
    Role → Reply (List UserSummary) → Reply (List Venue) → Reply (List EventSummary) → Panel → Panel
with_lists role users (refused message) events panel = failed message panel
with_lists role users (got venues) (refused message) panel = failed message panel
with_lists role users (got venues) (got events) panel =
    let shown : Panel = record panel {
      venues = venues;
      events = events;
      selected_event = first_id events;
    } in
    if is_admin role then with_users users shown else shown

-- `load`, of a page that stays open.
unfoldable pub load_panel : Role → Opening → Panel → Panel
load_panel customer opening panel = panel
load_panel role opening panel = with_lists role opening.users opening.venues opening.events panel

abbrev pub replaced : ℕ → UserSummary → List UserSummary → List UserSummary
replaced id updated = map (λ (u : UserSummary). if u.id == id then updated else u)

-- `changeRole`
unfoldable pub change_member : ℕ → Reply UserSummary → Panel → Panel
change_member id (got updated) panel =
    with_message "The role of the user is updated"
      (record panel { users = replaced id updated panel.users })
change_member id (refused message) panel = failed message panel
