-- ===== src/Entities/Rows.antt =====
-- The classes of backend/src/entities.ts. The creation and update stamps, which the database sets,
-- are left out, but for those by which the source orders rows.
use ki_ticket.Base.{ℕ, String, Bool, Option, List}
use ki_ticket.Entities.Enums.{Role, SeatState, ReservationState, PaymentState, WaitingRoomState}

pub record User : Type 0 where
  pub id : ℕ
  pub email : String
  pub name : String
  pub password_hash : String
  pub role : Role

pub record Venue : Type 0 where
  pub id : ℕ
  pub name : String
  pub city : String
  pub address : String

pub record Sector : Type 0 where
  pub id : ℕ
  pub venue_id : ℕ
  pub name : String

pub record Seat : Type 0 where
  pub id : ℕ
  pub sector_id : ℕ
  pub row : String
  pub number : ℕ
  pub accessible : Bool

pub record Event : Type 0 where
  pub id : ℕ
  pub organizer_id : ℕ
  pub venue_id : ℕ
  pub title : String
  pub description : String
  pub genre : String
  pub city : String
  pub tags : List String
  pub starts_at : ℕ
  pub ends_at : Option ℕ
  pub published : Bool

pub record PricingCategory : Type 0 where
  pub id : ℕ
  pub event_id : ℕ
  pub sector_id : Option ℕ
  pub name : String
  pub price : ℕ
  pub currency : String

pub record Reservation : Type 0 where
  pub id : ℕ
  pub user_id : ℕ
  pub event_id : ℕ
  pub state : ReservationState
  pub expires_at : ℕ
  pub total_amount : ℕ
  pub currency : String

pub record ReservationSeat : Type 0 where
  pub id : ℕ
  pub reservation_id : ℕ
  pub event_id : ℕ
  pub seat_id : ℕ
  pub state : SeatState
  pub price : ℕ

pub record Payment : Type 0 where
  pub id : ℕ
  pub reservation_id : ℕ
  pub idempotency_key : Option String
  pub state : PaymentState
  pub amount : ℕ
  pub currency : String
  pub reference : Option String
  pub failure_reason : Option String

pub record Ticket : Type 0 where
  pub id : ℕ
  pub reservation_id : ℕ
  pub seat_id : ℕ
  pub token : String
  pub qr_hash : String
  pub checked_in_at : Option ℕ
  pub issued_at : ℕ

pub record WaitingRoomEntry : Type 0 where
  pub id : ℕ
  pub event_id : ℕ
  pub user_id : ℕ
  pub position : ℕ
  pub state : WaitingRoomState
  pub admission_token : Option String
  pub token_expires_at : Option ℕ
  pub created_at : ℕ

pub record Notification : Type 0 where
  pub id : ℕ
  pub user_id : ℕ
  pub channel : String
  pub message : String
  pub sent : Bool
  pub provider_reference : Option String
  pub error : Option String
  pub sent_at : Option ℕ
  pub created_at : ℕ
