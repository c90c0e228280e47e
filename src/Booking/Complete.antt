-- ===== src/Booking/Complete.antt =====
-- `completeTransaction` of backend/src/payments.controller.ts: its three ways to return, each of
-- which keeps the invariant.
use ki_ticket.Base.{
  ℕ, String, ◌≡◌, ◌≢◌, sym, ap, ◌∙◌, false, Option, some, List, map, is_empty, arith, ◌==◌, ==_iff,
  inl, inr, Option-cases, Bool-cases, some_injective,
}
use ki_ticket.Outcome.{ok}
use ki_ticket.Database.{insert_all, save_all}
use ki_ticket.Entities.{Reservation, ReservationSeat, Payment, ReservationState, PaymentState}
use ki_ticket.World.{Repositories, Db}
use ki_ticket.PaymentPolicy.{PaymentOutcome, PaymentTransition, transition_for}
use ki_ticket.Cancellation.{seats_of}
use ki_ticket.Payment.{Draws, PaymentResult, booked, new_tickets, issue, compensate}
use ki_ticket.Booking.Invariant.{IsConsistent, unpaid_not_confirmed}
use ki_ticket.Booking.Release.{moved, left_seats, release-IsConsistent}
use ki_ticket.Booking.Returned.{issue_has_seats}
use ki_ticket.Booking.Pay.{Issued, settled, paid_payment}

module _ (D : Repositories) where
  -- What a compensation that returns has written.
  pub record Compensated (transition : PaymentTransition) (p : Payment) (r : Reservation)
      (db db' : Db D) : Type 0 where
    pub reservations : D.reservations.Table
    pub payments : D.payments.Table
    pub reservation_there : D.reservations.get db.reservations r.id ≡ some r
    pub payment_there : D.payments.get db.payments p.id ≡ some p
    pub linked : p.reservation_id ≡ r.id
    pub unpaid : p.state ≡ PaymentState.pending
    pub saved_reservation :
        D.reservations.save db.reservations (moved D db r transition.reservation_state reservations)
        ≡ some reservations
    pub saved_payment :
        D.payments.save db.payments (record p {
          state = transition.payment_state;
          failure_reason = transition.failure_reason;
        })
        ≡ some payments
    pub after : db' ≡ record db {
      reservations = reservations;
      reservation_seats = left_seats D db r transition.reservation_state reservations;
      payments = payments;
    }

  pub Compensated-IsConsistent :
      (transition : PaymentTransition) (p : Payment) (r : Reservation) (db db' : Db D)
      → transition.reservation_state ≢ ReservationState.confirmed
      → transition.payment_state ≢ PaymentState.success
      → Compensated transition p r db db'
      → IsConsistent D db
      → IsConsistent D db'
  Compensated-IsConsistent transition p r db db' ends fails k c = rw k.after (
      release-IsConsistent D db r transition.reservation_state k.reservations k.payments
        k.saved_reservation k.reservation_there
        (unpaid_not_confirmed D db p r c k.reservation_there k.payment_there k.linked k.unpaid) ends
        back forth c)
    where
      failed : Payment
      failed = record p {
        state = transition.payment_state;
        failure_reason = transition.failure_reason;
      }

      back :
          (i : ℕ) (q : Payment)
          → q.state ≡ PaymentState.success
          → D.payments.get k.payments i ≡ some q
          → D.payments.get db.payments i ≡ some q
      back i q z g = elim (Bool-cases (i == p.id)) [
        | inl same ↦
            let equal : failed ≡ q = some_injective (
              ground
                (arith, D.payments.get-save db.payments failed k.payments i k.saved_payment)) in
            absurd (fails (ap (λ (y : Payment). y.state) equal ∙ z))
        | inr differ ↦
            ground (arith, D.payments.get-save db.payments failed k.payments i k.saved_payment)
      ]

      forth :
          (i : ℕ) (q : Payment)
          → q.state ≡ PaymentState.success
          → D.payments.get db.payments i ≡ some q
          → D.payments.get k.payments i ≡ some q
      forth i q z g = elim (Bool-cases (i == p.id)) [
        | inl same ↦
            let equal : q ≡ p = some_injective (
              sym g
              ∙ (ap (D.payments.get db.payments) ((==_iff i p.id).0 same) ∙ k.payment_there)) in
            absurd (cc (ap (λ (y : Payment). y.state) equal, z, k.unpaid))
        | inr differ ↦
            ground (arith, D.payments.get-save db.payments failed k.payments i k.saved_payment)
      ]

  issue_writes :
      (draws : Draws) (p : Payment) (r : Reservation) (db : Db D) (reference : Option String)
      (seats : List ReservationSeat) (t : D.reservations.Table) (u : D.reservation_seats.Table)
      (w : D.tickets.Table) (v : D.payments.Table)
      → is_empty seats ≡ false
      → save_all D.reservation_seats (map booked seats) db.reservation_seats ≡ some u
      → insert_all D.tickets (new_tickets draws r.id 0 seats) db.tickets ≡ some w
      → D.reservations.save db.reservations (settled D draws p r reference) ≡ some t
      → D.payments.save db.payments (paid_payment D draws p r reference) ≡ some v
      → (issue D draws p r seats (transition_for PaymentOutcome.success) reference db).1
        ≡ record db { reservations = t; reservation_seats = u; tickets = w; payments = v }
  unfolding issue
  issue_writes draws p r db reference seats t u w v e a b c d = ground arith

  module _ (draws : Draws) (p : Payment) (r : Reservation) (db : Db D)
      (reservation_there : D.reservations.get db.reservations r.id ≡ some r)
      (payment_there : D.payments.get db.payments p.id ≡ some p) (linked : p.reservation_id ≡ r.id)
      (unpaid : p.state ≡ PaymentState.pending) where
    pub issue_ok :
        (reference : Option String) (out : PaymentResult)
        → (issue D draws p r
            (seats_of D r.id db)
            (transition_for PaymentOutcome.success)
            reference
            db).0
          ≡ ok out
        → Issued D draws p r reference db
            (issue D draws p r
              (seats_of D r.id db)
              (transition_for PaymentOutcome.success)
              reference
              db).1
    unfolding issue
    issue_ok reference out h =
        let seats_there = issue_has_seats D draws p r db reference (seats_of D r.id db) out h in
        elim (Option-cases
          (save_all D.reservation_seats (map booked (seats_of D r.id db)) db.reservation_seats)) [
            | inl a ↦ absurd (ground arith)
            | inr (u, a) ↦
                elim (Option-cases (
                  insert_all D.tickets (new_tickets draws r.id 0 (seats_of D r.id db))
                    db.tickets)) [
                      | inl b ↦ absurd (ground arith)
                      | inr (w, b) ↦
                          elim (Option-cases
                            (D.reservations.save db.reservations (settled D draws p r reference))) [
                              | inl d ↦ absurd (ground arith)
                              | inr (t, d) ↦
                                  elim (Option-cases (
                                    D.payments.save db.payments
                                      (paid_payment D draws p r reference))) [
                                        | inl e ↦ absurd (ground arith)
                                        | inr (v, e) ↦ record {
                                          reservations = t;
                                          seats = u;
                                          tickets = w;
                                          payments = v;
                                          reservation_there = reservation_there;
                                          payment_there = payment_there;
                                          linked = linked;
                                          unpaid = unpaid;
                                          has_seats = seats_there;
                                          saved_seats = a;
                                          inserted = b;
                                          saved_reservation = d;
                                          saved_payment = e;
                                          after =
                                              issue_writes draws p r db reference
                                                (seats_of D r.id db) t u w v seats_there a b d e;
                                        }
                                      ]
                            ]
                    ]
          ]

    pub compensate_ok :
        (transition : PaymentTransition) (out : PaymentResult)
        → (compensate D p r (seats_of D r.id db) transition db).0 ≡ ok out
        → Compensated transition p r db (compensate D p r (seats_of D r.id db) transition db).1
    unfolding compensate
    compensate_ok transition out h =
        elim (Option-cases (
          D.reservations.save db.reservations
            (record r { state = transition.reservation_state }))) [
              | inl d ↦ absurd (ground arith)
              | inr (t, d) ↦
                  elim (Option-cases (
                    D.payments.save db.payments (record p {
                      state = transition.payment_state;
                      failure_reason = transition.failure_reason;
                    }))) [
                      | inl e ↦ absurd (ground arith)
                      | inr (v, e) ↦ record {
                        reservations = t;
                        payments = v;
                        reservation_there = reservation_there;
                        payment_there = payment_there;
                        linked = linked;
                        unpaid = unpaid;
                        saved_reservation = d;
                        saved_payment = e;
                        after = ground arith;
                      }
                    ]
            ]
