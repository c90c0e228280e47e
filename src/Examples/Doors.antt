-- ===== src/Examples/Doors.antt =====
-- Check-ins of one ticket that overlap.
use ki_ticket.Base.{◌≡◌, refl, true, none, some, Option, [], ◌∷◌, inl}
use ki_ticket.Outcome.{Exception, Result, ok, err}
use ki_ticket.Database.{list_repository}
use ki_ticket.Entities.{Ticket, Reservation, ReservationState}
use ki_ticket.World.{Db}
use ki_ticket.Tickets.{approve}
use ki_ticket.Tickets.Overlap.{Desk, Reach, here, next, tests, approve-after_save}
use ki_ticket.Examples.Shop.{shop, opening}
use ki_ticket.Examples.Sales.{is_ok}
use ki_ticket.Examples.Services.{organizer}

abbrev ticket : Ticket
ticket = record {
  id = 500;
  reservation_id = 40;
  seat_id = 12;
  token = "";
  qr_hash = "";
  checked_in_at = none;
  issued_at = 7000;
}

abbrev reservation : Reservation
reservation = record {
  id = 40;
  user_id = 1;
  event_id = 7;
  state = ReservationState.confirmed;
  total_amount = 100;
  currency = "IRR";
  expires_at = 700000;
}

-- The doors open with one ticket sold.
unfoldable doors : Db shop
unfolding opening list_repository
doors = record opening { tickets = (ticket ∷ [], refl); reservations = (reservation ∷ [], refl) }

abbrev desk_opens : Desk shop
desk_opens = record { db = doors; approved = [] }

abbrev first_test : Result Ticket × Db shop
first_test = approve shop 999000 organizer 500 desk_opens.db

abbrev first_ticket : Ticket
first_ticket = record ticket { checked_in_at = some 999000 }

first_test_passes : first_test.0 ≡ ok first_ticket
unfolding approve doors opening list_repository
first_test_passes = refl

abbrev one_waits : Desk shop
one_waits = record desk_opens { approved = first_ticket ∷ [] }

steps : Reach shop desk_opens one_waits
steps = next here (tests desk_opens 999000 organizer 500 first_ticket first_test_passes)

abbrev table_of : Option shop.tickets.Table → shop.tickets.Table
table_of none = doors.tickets
table_of (some t) = t

abbrev saved_table : shop.tickets.Table
saved_table = table_of (shop.tickets.save doors.tickets first_ticket)

abbrev after_save : Desk shop
after_save = record one_waits { db = record doors { tickets = saved_table } }

saved : shop.tickets.save doors.tickets first_ticket ≡ some saved_table
unfolding doors opening list_repository
saved = refl

approve-after_save_example :
    (e : Exception) × (approve shop 999500 organizer first_ticket.id after_save.db
      ≡ (err e, after_save.db))
approve-after_save_example =
    approve-after_save shop desk_opens one_waits after_save first_ticket saved_table refl steps
      (inl refl) saved here 999500 organizer

-- Two check-ins whose tests both come before the first save both pass.
both_pass : is_ok (approve shop 999100 organizer 500 one_waits.db).0 ≡ true
unfolding approve doors opening list_repository
both_pass = refl
