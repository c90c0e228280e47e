-- ===== src/Booking/Returned.antt =====
-- What the two branches of `completeTransaction` of backend/src/payments.controller.ts return.
use ki_ticket.Base.{
  String, ◌≡◌, refl, sym, ◌∙◌, true, false, Option, none, some, List, [], ◌∷◌, map, is_empty, arith,
  inl, inr, Option-cases, Bool-cases,
}
use ki_ticket.Outcome.{ok, ok_injective}
use ki_ticket.Database.{insert_all, save_all}
use ki_ticket.Entities.{Reservation, ReservationSeat, Payment}
use ki_ticket.World.{Repositories, Db}
use ki_ticket.PaymentPolicy.{PaymentOutcome, PaymentTransition, transition_for}
use ki_ticket.Cancellation.{seat_ids_of}
use ki_ticket.Payment.{Draws, PaymentResult, booked, new_tickets, issue, compensate}

module _ (D : Repositories) where
  pub issue_has_seats :
      (draws : Draws) (p : Payment) (r : Reservation) (db : Db D) (reference : Option String)
      (seats : List ReservationSeat) (out : PaymentResult)
      → (issue D draws p r seats (transition_for PaymentOutcome.success) reference db).0 ≡ ok out
      → is_empty seats ≡ false
  unfolding issue
  issue_has_seats draws p r db reference [] out h = cc
  issue_has_seats draws p r db reference (s ∷ rest) out h = refl

  abbrev paid_as : Draws → Payment → Option String → PaymentTransition → Payment
  paid_as draws p reference transition = record p {
    state = transition.payment_state;
    reference = some (elim reference [ some given ↦ given | none ↦ draws.reference ]);
  }

  issue_returns :
      (draws : Draws) (p : Payment) (r : Reservation) (db : Db D) (reference : Option String)
      (seats : List ReservationSeat) (transition : PaymentTransition) (t : D.reservations.Table)
      (u : D.reservation_seats.Table) (w : D.tickets.Table) (v : D.payments.Table)
      → is_empty seats ≡ false
      → save_all D.reservation_seats (map booked seats) db.reservation_seats ≡ some u
      → insert_all D.tickets (new_tickets draws r.id 0 seats) db.tickets ≡ some w
      → D.reservations.save db.reservations (record r { state = transition.reservation_state })
        ≡ some t
      → D.payments.save db.payments (paid_as draws p reference transition) ≡ some v
      → (issue D draws p r seats transition reference db).0
        ≡ ok (record {
          payment = paid_as draws p reference transition;
          reservation = record r { state = transition.reservation_state };
          tickets = new_tickets draws r.id 0 seats;
          seat_ids = seat_ids_of seats;
          transitioned = true;
        })
  unfolding issue
  issue_returns draws p r db reference seats transition t u w v e a b c d = ground arith

  pub issue_transitioned :
      (draws : Draws) (p : Payment) (r : Reservation) (db : Db D) (reference : Option String)
      (seats : List ReservationSeat) (transition : PaymentTransition) (out : PaymentResult)
      → (issue D draws p r seats transition reference db).0 ≡ ok out
      → (out.transitioned ≡ true)
        × (out.payment ≡ record p {
          state = transition.payment_state;
          reference = some (elim reference [ some given ↦ given | none ↦ draws.reference ]);
        })
        × (out.reservation ≡ record r { state = transition.reservation_state })
  unfolding issue
  issue_transitioned draws p r db reference seats transition out h =
      elim (Bool-cases (is_empty seats)) [
        | inl e ↦ absurd (ground arith)
        | inr e ↦
            elim (Option-cases
              (save_all D.reservation_seats (map booked seats) db.reservation_seats)) [
                | inl a ↦ absurd (ground arith)
                | inr (u, a) ↦
                    elim (Option-cases
                      (insert_all D.tickets (new_tickets draws r.id 0 seats) db.tickets)) [
                        | inl b ↦ absurd (ground arith)
                        | inr (w, b) ↦
                            elim (Option-cases (
                              D.reservations.save db.reservations
                                (record r { state = transition.reservation_state }))) [
                                  | inl c ↦ absurd (ground arith)
                                  | inr (t, c) ↦
                                      elim (Option-cases (
                                        D.payments.save db.payments
                                          (paid_as draws p reference transition))) [
                                            | inl d ↦ absurd (ground arith)
                                            | inr (v, d) ↦
                                                let same =
                                                  issue_returns draws p r db reference seats
                                                    transition t u w v e a b c d in
                                                let equal = ok_injective (sym h ∙ same) in
                                                rw equal (refl, refl, refl)
                                          ]
                                ]
                      ]
              ]
      ]

  pub compensate_transitioned :
      (p : Payment) (r : Reservation) (db : Db D) (seats : List ReservationSeat)
      (transition : PaymentTransition) (out : PaymentResult)
      → (compensate D p r seats transition db).0 ≡ ok out
      → (out.transitioned ≡ true)
        × (out.payment ≡ record p {
          state = transition.payment_state;
          failure_reason = transition.failure_reason;
        })
        × (out.reservation ≡ record r { state = transition.reservation_state })
  unfolding compensate
  compensate_transitioned p r db seats transition out h = ground arith
