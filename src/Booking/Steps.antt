-- ===== src/Booking/Steps.antt =====
-- The transactions of backend/src/reservations.controller.ts and backend/src/payments.controller.ts
-- as steps of one system: any number of requests, in any order, with any arguments. What a request
-- does before its transaction only reads, so its transaction is one step of an interleaving.
use ki_ticket.Base.{
  ℕ, String, ◌≡◌, refl, ap, true, none, some, List, arith, ◌==◌, inl, inr, Bool-cases,
  some_injective,
}
use ki_ticket.Outcome.{ok}
use ki_ticket.Database.{get-insert_all_old}
use ki_ticket.Entities.{
  Reservation, ReservationSeat, PricingCategory, Payment, SeatState, PaymentState, ReservationState,
}
use ki_ticket.World.{Repositories, Db, AuthenticatedUser}
use ki_ticket.Pricing.{Prices}
use ki_ticket.Reservation.{Surroundings, book, seat_rows}
use ki_ticket.Cancellation.{cancel_reservation, seats_of}
use ki_ticket.Expiry.{expire_reservation}
use ki_ticket.PaymentPolicy.{transition_for}
use ki_ticket.Payment.{Draws, CompletePayment, PaymentResult, new_payment, complete_transaction}
use ki_ticket.Booking.Invariant.{IsConsistent}
use ki_ticket.Booking.Book.{book_ok, book-IsConsistent}
use ki_ticket.Booking.Close.{Closed, cancel_ok, cancel-IsConsistent, expire_ok, expire-IsConsistent}
use ki_ticket.Booking.Release
use ki_ticket.Booking.Pay
use ki_ticket.Booking.Pay.{Issued}
use ki_ticket.Booking.Invariant.{unpaid_not_confirmed}
use ki_ticket.Booking.Conclude.{
  Completed, replayed, sold, given_back, complete_cases, complete-IsConsistent,
}

module _ (D : Repositories) where
  pub data Step (db : Db D) : Db D → Type 0 where
    books :
        (around : Surroundings) (user_id event_id : ℕ) (pricing : List PricingCategory)
        (prices : Prices) (seat_ids : List ℕ) (r : Reservation)
        → D.reservations.get db.reservations around.id ≡ none
        → (book D around user_id event_id pricing prices seat_ids db).0 ≡ ok r
        → Step db (book D around user_id event_id pricing prices seat_ids db).1
    cancels :
        (user : AuthenticatedUser) (id : ℕ) (out : Reservation × List ReservationSeat)
        → (cancel_reservation D user id db).0 ≡ ok out
        → Step db (cancel_reservation D user id db).1
    expires :
        (id : ℕ)
        → (expire_reservation D id (seats_of D id db) db).0 ≡ ok true
        → Step db (expire_reservation D id (seats_of D id db) db).1
    starts :
        (id : ℕ) (r : Reservation) (key : String) (t : D.payments.Table)
        → D.payments.insert db.payments (new_payment id r key) ≡ some t
        → Step db (record db { payments = t })
    completes :
        (now : ℕ) (draws : Draws) (id user_id : ℕ) (body : CompletePayment) (out : PaymentResult)
        → (complete_transaction D now draws id user_id body db).0 ≡ ok out
        → Step db (complete_transaction D now draws id user_id body db).1

  pub data Reach (db : Db D) : Db D → Type 0 where
    here : Reach db db
    next : {middle last : Db D} → Reach db middle → Step middle last → Reach db last

  start-IsConsistent :
      (db : Db D) (id : ℕ) (r : Reservation) (key : String) (t : D.payments.Table)
      → D.payments.insert db.payments (new_payment id r key) ≡ some t
      → IsConsistent D db
      → IsConsistent D (record db { payments = t })
  start-IsConsistent db id r key t inserted c = record {
    held = c.held;
    sold = c.sold;
    ticketed = c.ticketed;
    paid = λ i x g e.
        let (p, gp, l, z) = c.paid i x g e in
        (
          p,
          ground (
            arith,
            D.payments.get-insert db.payments (new_payment id r key) t p.id inserted,
            D.payments.insert_fresh db.payments (new_payment id r key) t inserted,
          ),
          l,
          z,
        );
    confirmed = λ i p g z. c.confirmed i p (old i p g z) z;
  }
    where
      old :
          (i : ℕ) (p : Payment)
          → D.payments.get t i ≡ some p
          → p.state ≡ PaymentState.success
          → D.payments.get db.payments i ≡ some p
      old i p g z = elim (Bool-cases (i == id)) [
        | inl same ↦
            let equal : new_payment id r key ≡ p = some_injective (
              ground
                (arith, D.payments.get-insert db.payments (new_payment id r key) t i inserted)) in
            absurd (cc (ap (λ (y : Payment). y.state) equal, z))
        | inr differ ↦
            ground (arith, D.payments.get-insert db.payments (new_payment id r key) t i inserted)
      ]

  pub Step-IsConsistent : {db last : Db D} → Step db last → IsConsistent D db → IsConsistent D last
  Step-IsConsistent {db} (books around user_id event_id pricing prices seat_ids r fresh h) c =
      book-IsConsistent D around user_id event_id pricing prices seat_ids db r fresh c h
  Step-IsConsistent {db} (cancels user id out h) c = cancel-IsConsistent D user id db out c h
  Step-IsConsistent {db} (expires id h) c = expire-IsConsistent D id (seats_of D id db) db refl c h
  Step-IsConsistent {db} (starts id r key t h) c = start-IsConsistent db id r key t h c
  Step-IsConsistent {db} (completes now draws id user_id body out h) c =
      complete-IsConsistent D draws now id user_id body db out c h

  -- Whatever transactions run in whatever order, each new reservation under an id that no
  -- reservation has, the invariant of the bookings holds: if it holds of the first tables, it holds
  -- of the last.
  pub Reach-IsConsistent :
      {db last : Db D} → Reach db last → IsConsistent D db → IsConsistent D last
  Reach-IsConsistent here c = c
  Reach-IsConsistent (next before step) c = Step-IsConsistent step (Reach-IsConsistent before c)

  -- The row of a sold seat.
  abbrev pub Booked : Db D → ReservationSeat → Type 0
  Booked db s =
      (D.reservation_seats.get db.reservation_seats s.id ≡ some s) × (s.state ≡ SeatState.booked)

  Closed-Booked :
      (st : ReservationState) (db last : Db D) (r : Reservation) (s : ReservationSeat)
      → Closed D st db last r
      → IsConsistent D db
      → Booked db s
      → Booked last s
  Closed-Booked st db last r s k c (g, b) = rw k.after (
    Release.seat_stays D db r st k.table s.id s g (
        Release.other_of_booked D db r st k.table k.there (λ e. cc (e, k.was_pending)) s.id s c g
          b),
    b,
  )

  Completed-Booked :
      (db last : Db D) (now : ℕ) (draws : Draws) (body : CompletePayment) (out : PaymentResult)
      (p : Payment) (r : Reservation) (s : ReservationSeat)
      → Completed D draws p r db now body out last
      → IsConsistent D db
      → Booked db s
      → Booked last s
  Completed-Booked db last now draws body out p r s (replayed n t e) c g = rw e g
  Completed-Booked db last now draws body out p r s (sold a l t k) c (g, b) = rw k.after (
    Pay.seat_stays D draws p r body.provider_reference db last k c s.id s g
        (Pay.other_of_booked D draws p r body.provider_reference db last k c s.id s g b),
    b,
  )
  Completed-Booked db last now draws body out p r s (given_back o n e t k) c (g, b) = rw k.after (
    Release.seat_stays D db r (transition_for o).reservation_state k.reservations s.id s g (
        Release.other_of_booked D db r (transition_for o).reservation_state k.reservations
          k.reservation_there
          (unpaid_not_confirmed D db p r c k.reservation_there k.payment_there k.linked k.unpaid)
          s.id s c g b),
    b,
  )

  pub Step-Booked :
      {db last : Db D} (s : ReservationSeat)
      → Step db last
      → IsConsistent D db
      → Booked db s
      → Booked last s
  Step-Booked {db} s (books around user_id event_id pricing prices seat_ids r fresh h) c (g, b) =
      let (t, u, saved, inserted, q) =
        book_ok D around user_id event_id pricing prices seat_ids db r h in
      rw q (
        get-insert_all_old D.reservation_seats (seat_rows around event_id prices 0 seat_ids)
            db.reservation_seats u s.id s inserted g,
        b,
      )
  Step-Booked {db} s (cancels user id out h) c g =
      let (r, k, _, _, _) = cancel_ok D user id db out h in
      Closed-Booked ReservationState.cancelled db (cancel_reservation D user id db).1 r s k c g
  Step-Booked {db} s (expires id h) c g =
      let (r, k, _) = expire_ok D id (seats_of D id db) db refl h in
      Closed-Booked ReservationState.expired db (expire_reservation D id (seats_of D id db) db).1 r
        s k c g
  Step-Booked {db} s (starts id r key t h) c g = g
  Step-Booked {db} s (completes now draws id user_id body out h) c g =
      let (p, r, _, _, k) = complete_cases D draws now id user_id body db out h in
      Completed-Booked db (complete_transaction D now draws id user_id body db).1 now draws body out
        p r s k c g

  -- A sold seat stays sold to its reservation: a booked row of tables that satisfy the invariant is
  -- still there, unchanged, whatever transactions follow.
  pub Reach-Booked :
      {db last : Db D} (s : ReservationSeat)
      → Reach db last
      → IsConsistent D db
      → Booked db s
      → Booked last s
  Reach-Booked s here c g = g
  Reach-Booked s (next before step) c g =
      Step-Booked s step (Reach-IsConsistent before c) (Reach-Booked s before c g)
