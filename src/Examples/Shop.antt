-- ===== src/Examples/Shop.antt =====
-- The rows of a small shop: a concert in a hall with one sector and three seats.
use ki_ticket.Base.{ℕ, refl, true, false, none, [], ◌∷◌, ◌+◌, ◌*◌, zero, suc}
use ki_ticket.Database.{list_repository}
use ki_ticket.Lock.{Call}
use ki_ticket.Entities.{
  Role, Sector, Seat, Event, PricingCategory, user_entity, venue_entity, notification_entity,
  user_symmetric, sector_entity, seat_entity, event_entity, pricing_entity, reservation_entity,
  reservation_seat_entity, payment_entity, ticket_entity, waiting_room_entity, ticket_symmetric,
  reservation_seat_symmetric, pricing_symmetric, payment_symmetric, sector_symmetric,
  seat_symmetric, waiting_room_symmetric,
}
use ki_ticket.World.{Repositories, Db, AuthenticatedUser}
use ki_ticket.Pricing.{Prices}
use ki_ticket.Reservation.{Surroundings}
use ki_ticket.PaymentPolicy.{PaymentOutcome}
use ki_ticket.Payment.{Draws, CompletePayment}

abbrev pub shop : Repositories
shop = record {
  users = list_repository user_entity user_symmetric;
  venues = list_repository venue_entity (λ r s. refl);
  notifications = list_repository notification_entity (λ r s. refl);
  sectors = list_repository sector_entity sector_symmetric;
  seats = list_repository seat_entity seat_symmetric;
  events = list_repository event_entity (λ r s. refl);
  prices = list_repository pricing_entity pricing_symmetric;
  reservations = list_repository reservation_entity (λ r s. refl);
  reservation_seats = list_repository reservation_seat_entity reservation_seat_symmetric;
  payments = list_repository payment_entity payment_symmetric;
  tickets = list_repository ticket_entity ticket_symmetric;
  entries = list_repository waiting_room_entity waiting_room_symmetric;
}

abbrev pub concert : Event
concert = record {
  id = 7;
  organizer_id = 90;
  venue_id = 3;
  title = "Concert";
  description = "";
  genre = "rock";
  city = "Tehran";
  tags = [];
  starts_at = 1000000;
  ends_at = none;
  published = true;
}

abbrev pub stalls : Sector
stalls = record { id = 5; venue_id = 3; name = "Stalls" }

abbrev pub seat : ℕ → ℕ → Seat
seat id number = record { id = id; sector_id = 5; row = "A"; number = number; accessible = false }

abbrev pub standard : PricingCategory
standard = record {
  id = 60;
  event_id = 7;
  sector_id = none;
  name = "Standard";
  price = 250;
  currency = "IRR";
}

-- The shop before any sale.
unfoldable pub opening : Db shop
unfolding list_repository
opening = record {
  users = ([], refl);
  venues = ([], refl);
  notifications = ([], refl);
  sectors = (stalls ∷ [], refl);
  seats = (seat 11 1 ∷ seat 12 2 ∷ seat 13 3 ∷ [], refl);
  events = (concert ∷ [], refl);
  prices = (standard ∷ [], refl);
  reservations = ([], refl);
  reservation_seats = ([], refl);
  payments = ([], refl);
  tickets = ([], refl);
  entries = ([], refl);
}

abbrev pub ada : AuthenticatedUser
ada = record { sub = 1; email = "ada@example.org"; role = Role.customer }

abbrev pub call : ℕ → Call
call now = record { now = now; reached = true }

abbrev pub around : ℕ → ℕ → Surroundings
around id now = record {
  waiting_room_required = false;
  lock_ttl_seconds = 600;
  admission_at = now;
  event_at = now;
  acquire_call = call now;
  reserved_at = now;
  release_call = call now;
  id = id;
  row_id = λ n. 100 * id + n;
}

abbrev pub prices : Prices
prices = (11, 250) ∷ (12, 250) ∷ []

abbrev pub draws : Draws
draws = record {
  reference = "ref";
  token = λ n. elim n [ zero ↦ "t0" | suc k ↦ "t1" ];
  ticket_id = λ n. 500 + n;
  sha256 = λ s. s;
  issued_at = 500;
}

abbrev pub pays : CompletePayment
pays = record { outcome = PaymentOutcome.success; provider_reference = none }
