-- ===== src/TicketList.antt =====
-- The lists of backend/src/tickets.controller.ts: the tickets of a user, and the notifications.
pub mod Own
use ki_ticket.Base.{
  ℕ, String, Bool, true, false, Option, none, some, List, [], ◌∷◌, map, has, find, is_empty, unique,
  take, sort_by, leb, ◌==◌, if◌then◌else◌,
}
use ki_ticket.Entities.{Ticket, Reservation, Event, Seat, Notification}
use ki_ticket.World.{Repositories, Db, AuthenticatedUser}

-- A ticket of the list. A label of a seat is the row and the number.
pub record ListedTicket : Type 0 where
  pub ticket : Ticket
  pub event_title : Option String
  pub event_starts_at : Option ℕ
  pub seat_label : Option (String × ℕ)

abbrev pub issued_after : Ticket → Ticket → Bool
issued_after a b = leb b.issued_at a.issued_at

abbrev pub event_of : List Event → Option Reservation → Option Event
event_of events none = none
event_of events (some r) = find (λ (e : Event). e.id == r.event_id) events

abbrev pub title_of : Option Event → Option String
title_of none = none
title_of (some e) = some e.title

abbrev pub start_of : Option Event → Option ℕ
start_of none = none
start_of (some e) = some e.starts_at

abbrev pub label_of : Option Seat → Option (String × ℕ)
label_of none = none
label_of (some s) = some (s.row, s.number)

-- The maps by id are lists of rows with distinct ids, in which `find` finds the row of an id.
abbrev pub listed_ticket : List Reservation → List Event → List Seat → Ticket → ListedTicket
listed_ticket reservations events seats t =
    let reservation = find (λ (r : Reservation). r.id == t.reservation_id) reservations in
    let event = event_of events reservation in
    record {
      ticket = t;
      event_title = title_of event;
      event_starts_at = start_of event;
      seat_label = label_of (find (λ (s : Seat). s.id == t.seat_id) seats);
    }

module _ (D : Repositories) where
  abbrev pub reservations_of : AuthenticatedUser → Db D → List Reservation
  reservations_of user db = D.reservations.find_by db.reservations (λ r. r.user_id == user.sub)

  abbrev pub reservation_ids : AuthenticatedUser → Db D → List ℕ
  reservation_ids user db = map (λ (r : Reservation). r.id) (reservations_of user db)

  -- The query, newest ticket first.
  abbrev pub tickets_of : AuthenticatedUser → Db D → List Ticket
  tickets_of user db =
      sort_by issued_after
        (D.tickets.find_by db.tickets (λ t. has t.reservation_id (reservation_ids user db)))

  abbrev pub events_of : AuthenticatedUser → Db D → List Event
  events_of user db =
      let event_ids = unique (map (λ (r : Reservation). r.event_id) (reservations_of user db)) in
      D.events.find_by db.events (λ e. has e.id event_ids)

  abbrev pub seats_of : AuthenticatedUser → Db D → List Seat
  seats_of user db =
      let seat_ids = unique (map (λ (t : Ticket). t.seat_id) (tickets_of user db)) in
      D.seats.find_by db.seats (λ s. has s.id seat_ids)

  unfoldable pub list_tickets : AuthenticatedUser → Db D → List ListedTicket
  list_tickets user db =
      if is_empty (reservations_of user db)
      then []
      else map (listed_ticket (reservations_of user db) (events_of user db) (seats_of user db))
          (tickets_of user db)

  -- `list` of the notifications.
  unfoldable pub list_notifications : AuthenticatedUser → Db D → List Notification
  list_notifications user db = take 100 (
      sort_by (λ (a b : Notification). leb b.created_at a.created_at)
        (D.notifications.find_by db.notifications (λ n. n.user_id == user.sub)))
