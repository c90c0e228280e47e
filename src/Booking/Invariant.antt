-- ===== src/Booking/Invariant.antt =====
-- The invariant of the rows of a booking.
use ki_ticket.Base.{ℕ, ◌≡◌, ◌≢◌, refl, sym, ap, ◌∙◌, some, arith, some_injective}
use ki_ticket.Entities.{
  Reservation, ReservationSeat, Payment, Ticket, SeatState, ReservationState, PaymentState,
}
use ki_ticket.World.{Repositories, Db}

-- A seat is locked while its reservation is pending, and booked once it is confirmed; a cancelled or
-- expired reservation has no seats.
abbrev pub Agrees : ReservationState → SeatState → Type 0
Agrees ReservationState.pending SeatState.locked = Unit
Agrees ReservationState.confirmed SeatState.booked = Unit
Agrees _ _ = ⊥

module _ (D : Repositories) (db : Db D) where
  -- The reservation of a seat row is there, is for the row's event and agrees with the row.
  abbrev pub Held : ReservationSeat → Type 0
  Held s =
      (r : Reservation) × (D.reservations.get db.reservations s.reservation_id ≡ some r)
      × (s.event_id ≡ r.event_id)
      × Agrees r.state s.state

  -- The seat of a ticket is booked by the ticket's reservation.
  abbrev pub Sold : Ticket → Type 0
  Sold t =
      (s : ReservationSeat) × (D.reservation_seats.get db.reservation_seats s.id ≡ some s)
      × (s.reservation_id ≡ t.reservation_id)
      × (s.seat_id ≡ t.seat_id)
      × (s.state ≡ SeatState.booked)

  -- A booked seat has its ticket.
  abbrev pub Ticketed : ReservationSeat → Type 0
  Ticketed s =
      (t : Ticket) × (D.tickets.get db.tickets t.id ≡ some t)
      × (t.reservation_id ≡ s.reservation_id)
      × (t.seat_id ≡ s.seat_id)

  -- A reservation has a successful payment.
  abbrev pub Paid : ℕ → Type 0
  Paid reservation_id =
      (p : Payment) × (D.payments.get db.payments p.id ≡ some p)
      × (p.reservation_id ≡ reservation_id)
      × (p.state ≡ PaymentState.success)

  abbrev pub Confirmed : ℕ → Type 0
  Confirmed reservation_id =
      (r : Reservation) × (D.reservations.get db.reservations reservation_id ≡ some r)
      × (r.state ≡ ReservationState.confirmed)

  pub record IsConsistent : Type 0 where
    pub held :
        (i : ℕ) (s : ReservationSeat)
        → D.reservation_seats.get db.reservation_seats i ≡ some s
        → Held s
    pub sold : (i : ℕ) (t : Ticket) → D.tickets.get db.tickets i ≡ some t → Sold t
    pub ticketed :
        (i : ℕ) (s : ReservationSeat)
        → D.reservation_seats.get db.reservation_seats i ≡ some s
        → s.state ≡ SeatState.booked
        → Ticketed s
    pub paid :
        (i : ℕ) (r : Reservation)
        → D.reservations.get db.reservations i ≡ some r
        → r.state ≡ ReservationState.confirmed
        → Paid i
    pub confirmed :
        (i : ℕ) (p : Payment)
        → D.payments.get db.payments i ≡ some p
        → p.state ≡ PaymentState.success
        → Confirmed p.reservation_id

-- A reservation with a payment that is still pending is not confirmed: by the unique reservation of
-- a payment there is no other payment that could have succeeded.
pub unpaid_not_confirmed :
    (D : Repositories) (db : Db D) (p : Payment) (r : Reservation)
    → IsConsistent D db
    → D.reservations.get db.reservations r.id ≡ some r
    → D.payments.get db.payments p.id ≡ some p
    → p.reservation_id ≡ r.id
    → p.state ≡ PaymentState.pending
    → r.state ≢ ReservationState.confirmed
unpaid_not_confirmed D db p r c gr gp linked unpaid e =
    let (q, gq, same, z) = c.paid r.id r gr e in
    let one : q.id ≡ p.id = D.payments.unique db.payments q.id p.id q p gq gp (ground arith) in
    let equal : q ≡ p = some_injective (sym gq ∙ (ap (D.payments.get db.payments) one ∙ gp)) in
    cc (ap (λ (y : Payment). y.state) equal, z, unpaid)

-- A seat row of a reservation that is not confirmed shows that it is pending.
pub Agrees-open :
    (st : ReservationState) (s : SeatState)
    → Agrees st s
    → st ≢ ReservationState.confirmed
    → st ≡ ReservationState.pending
Agrees-open ReservationState.pending s a n = refl
Agrees-open ReservationState.confirmed s a n = absurd (n refl)
Agrees-open ReservationState.cancelled s a n = absurd a
Agrees-open ReservationState.expired s a n = absurd a
