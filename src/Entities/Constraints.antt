-- ===== src/Entities/Constraints.antt =====
-- The `@PrimaryGeneratedColumn` and `@Unique` lines of backend/src/entities.ts. SQL's uniqueness
-- does not compare NULL columns.
use ki_ticket.Base.{
  ℕ, String, ◌≡◌, refl, Bool, false, ◌&&◌, ◌||◌, Option, none, some, arith, ◌==◌, str_eq, eq_iff,
}
use ki_ticket.Database.{Entity}
use ki_ticket.Entities.Rows.{
  User, Venue, Notification, Sector, Seat, Event, PricingCategory, Reservation, ReservationSeat,
  Payment, Ticket, WaitingRoomEntry,
}

-- Two columns that may be NULL hold the same value.
abbrev pub same_number : Option ℕ → Option ℕ → Bool
same_number (some a) (some b) = a == b
same_number _ _ = false

abbrev pub same_text : Option String → Option String → Bool
same_text (some a) (some b) = str_eq a b
same_text _ _ = false

abbrev pub user_entity : Entity User
user_entity = record { key = λ r. r.id; clash = λ r s. str_eq r.email s.email }

abbrev pub venue_entity : Entity Venue
venue_entity = record { key = λ r. r.id; clash = λ r s. false }

abbrev pub notification_entity : Entity Notification
notification_entity = record { key = λ r. r.id; clash = λ r s. false }

abbrev pub sector_entity : Entity Sector
sector_entity = record {
  key = λ r. r.id;
  clash = λ r s. r.venue_id == s.venue_id && str_eq r.name s.name;
}

abbrev pub seat_entity : Entity Seat
seat_entity = record {
  key = λ r. r.id;
  clash = λ r s. r.sector_id == s.sector_id && (str_eq r.row s.row && r.number == s.number);
}

abbrev pub event_entity : Entity Event
event_entity = record { key = λ r. r.id; clash = λ r s. false }

abbrev pub pricing_entity : Entity PricingCategory
pricing_entity = record {
  key = λ r. r.id;
  clash = λ r s.
      r.event_id == s.event_id && (same_number r.sector_id s.sector_id && str_eq r.name s.name);
}

abbrev pub reservation_entity : Entity Reservation
reservation_entity = record { key = λ r. r.id; clash = λ r s. false }

abbrev pub reservation_seat_entity : Entity ReservationSeat
reservation_seat_entity = record {
  key = λ r. r.id;
  clash = λ r s. r.event_id == s.event_id && r.seat_id == s.seat_id;
}

abbrev pub payment_entity : Entity Payment
payment_entity = record {
  key = λ r. r.id;
  clash =
      λ r s. r.reservation_id == s.reservation_id || same_text r.idempotency_key s.idempotency_key;
}

abbrev pub ticket_entity : Entity Ticket
ticket_entity = record {
  key = λ r. r.id;
  clash = λ r s.
      str_eq r.token s.token || (r.reservation_id == s.reservation_id && r.seat_id == s.seat_id);
}

abbrev pub waiting_room_entity : Entity WaitingRoomEntry
waiting_room_entity = record {
  key = λ r. r.id;
  clash = λ r s. same_text r.admission_token s.admission_token;
}

str_eq_comm : (s t : String) → str_eq s t ≡ str_eq t s
str_eq_comm s t = ground (arith, eq_iff s t, eq_iff t s)

-- Each constraint is symmetric.
pub user_symmetric : (r s : User) → user_entity.clash r s ≡ user_entity.clash s r
user_symmetric r s = str_eq_comm r.email s.email

pub ticket_symmetric : (r s : Ticket) → ticket_entity.clash r s ≡ ticket_entity.clash s r
ticket_symmetric r s = ground (arith, str_eq_comm r.token s.token)

pub reservation_seat_symmetric :
    (r s : ReservationSeat) → reservation_seat_entity.clash r s ≡ reservation_seat_entity.clash s r
reservation_seat_symmetric r s = ground arith

same_number_comm : (a b : Option ℕ) → same_number a b ≡ same_number b a
same_number_comm (some a) (some b) = ground arith
same_number_comm (some a) none = refl
same_number_comm none (some b) = refl
same_number_comm none none = refl

same_text_comm : (a b : Option String) → same_text a b ≡ same_text b a
same_text_comm (some a) (some b) = str_eq_comm a b
same_text_comm (some a) none = refl
same_text_comm none (some b) = refl
same_text_comm none none = refl

pub pricing_symmetric :
    (r s : PricingCategory) → pricing_entity.clash r s ≡ pricing_entity.clash s r
pricing_symmetric r s =
    ground (arith, same_number_comm r.sector_id s.sector_id, str_eq_comm r.name s.name)

pub payment_symmetric : (r s : Payment) → payment_entity.clash r s ≡ payment_entity.clash s r
payment_symmetric r s = ground (arith, same_text_comm r.idempotency_key s.idempotency_key)

pub sector_symmetric : (r s : Sector) → sector_entity.clash r s ≡ sector_entity.clash s r
sector_symmetric r s = ground (arith, str_eq_comm r.name s.name)

pub seat_symmetric : (r s : Seat) → seat_entity.clash r s ≡ seat_entity.clash s r
seat_symmetric r s = ground (arith, str_eq_comm r.row s.row)

pub waiting_room_symmetric :
    (r s : WaitingRoomEntry) → waiting_room_entity.clash r s ≡ waiting_room_entity.clash s r
waiting_room_symmetric r s = same_text_comm r.admission_token s.admission_token
