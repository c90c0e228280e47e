-- ===== src/Entities/Enums.antt =====
-- The enumerations of backend/src/entities.ts, and their tests for equality.
use ki_ticket.Base.{Bool, true, false, ◌≡◌, arith}

pub data Role : Type 0 where
  customer organizer admin : Role

pub data SeatState : Type 0 where
  available locked booked : SeatState

pub data ReservationState : Type 0 where
  pending confirmed cancelled expired : ReservationState

pub data PaymentState : Type 0 where
  pending success failed timeout cancelled : PaymentState

pub data WaitingRoomState : Type 0 where
  queued admitted expired : WaitingRoomState

abbrev pub is_admin : Role → Bool
is_admin Role.admin = true
is_admin _ = false

abbrev pub reservation_pending : ReservationState → Bool
reservation_pending ReservationState.pending = true
reservation_pending _ = false

abbrev pub payment_pending : PaymentState → Bool
payment_pending PaymentState.pending = true
payment_pending _ = false

abbrev pub is_admitted : WaitingRoomState → Bool
is_admitted WaitingRoomState.admitted = true
is_admitted _ = false

abbrev pub is_queued : WaitingRoomState → Bool
is_queued WaitingRoomState.queued = true
is_queued _ = false

abbrev pub same_role : Role → Role → Bool
same_role Role.customer Role.customer = true
same_role Role.organizer Role.organizer = true
same_role Role.admin Role.admin = true
same_role _ _ = false

pub same_role_eq : (a b : Role) → same_role a b ≡ true → a ≡ b
same_role_eq a b h = ground arith
