-- ===== src/Booking/Replay.antt =====
-- A repeated completion: `complete` of backend/src/payments.controller.ts for a payment that is no
-- longer pending.
use ki_ticket.Base.{ℕ, ◌≡◌, ◌≢◌, refl, sym, ◌∙◌, false, some, List, arith, inl, inr, ==_iff, ◌==◌}
use ki_ticket.Outcome.{Result, ok, Result-cases}
use ki_ticket.Database.{find_by_key}
use ki_ticket.Redis.{Redis}
use ki_ticket.Lock.{Call}
use ki_ticket.Entities.{Reservation, ReservationSeat, Payment, PaymentState}
use ki_ticket.World.{Repositories, Db, World, AuthenticatedUser}
use ki_ticket.PaymentPolicy.{PaymentOutcome, transition_for}
use ki_ticket.Cancellation.{find_reservation, seats_of}
use ki_ticket.Payment.{
  Draws, CompletePayment, PaymentResult, find_payment, conclude, complete_transaction,
}
use ki_ticket.Checkout.{complete, tell}
use ki_ticket.Booking.Pay.{paid_payment, settled}
use ki_ticket.Booking.Requests.{tell_returns, complete_db_ok}
use ki_ticket.Booking.Conclude.{
  Done, Completed, replayed, sold, given_back, Returns, complete_cases,
}

module _ (D : Repositories) where
  conclude_done :
      (st : PaymentState) (now : ℕ) (draws : Draws) (body : CompletePayment) (p : Payment)
      (r : Reservation) (seats : List ReservationSeat) (db : Db D)
      → st ≢ PaymentState.pending
      → (out : PaymentResult) × (conclude D st now draws body p r seats db ≡ (ok out, db))
        × Returns out false p r
  unfolding conclude
  conclude_done PaymentState.pending now draws body p r seats db n = absurd (n refl)
  conclude_done PaymentState.success now draws body p r seats db n = (_, refl, (refl, refl, refl))
  conclude_done PaymentState.failed now draws body p r seats db n = (_, refl, (refl, refl, refl))
  conclude_done PaymentState.timeout now draws body p r seats db n = (_, refl, (refl, refl, refl))
  conclude_done PaymentState.cancelled now draws body p r seats db n = (_, refl, (refl, refl, refl))

  -- A completion of such a payment by its user only reads.
  pub Done-run :
      (now : ℕ) (draws : Draws) (user_id : ℕ) (body : CompletePayment) (db : Db D) (p : Payment)
      (r : Reservation)
      → Done D db p r
      → r.user_id ≡ user_id
      → (out : PaymentResult) × (complete_transaction D now draws p.id user_id body db
          ≡ (ok out, db))
        × Returns out false p r
  unfolding complete_transaction
  Done-run now draws user_id body db p r k mine =
      let found : find_payment D p.id db ≡ some p =
        find_by_key D.payments db.payments (λ q. q.id == p.id) p.id p k.payment_there
          ((==_iff p.id p.id).1 refl) (λ q. (==_iff q.id p.id).0) in
      let there : find_reservation D p.reservation_id db ≡ some r =
        find_by_key D.reservations db.reservations (λ q. q.id == p.reservation_id) r.id r
          k.reservation_there ((==_iff r.id p.reservation_id).1 (sym k.linked))
          (λ q h. (==_iff q.id p.reservation_id).0 h ∙ k.linked) in
      rw (found, there, (==_iff r.user_id user_id).1 mine)
        (conclude_done p.state now draws body p r (seats_of D r.id db) db k.closed)

  not_pending : (o : PaymentOutcome) → (transition_for o).payment_state ≢ PaymentState.pending
  not_pending PaymentOutcome.success = λ e. cc
  not_pending PaymentOutcome.failure = λ e. cc
  not_pending PaymentOutcome.timeout = λ e. cc

  -- After a completion the payment of the result is stored, and is no longer pending.
  pub Done-Completed :
      (draws : Draws) (p : Payment) (r : Reservation) (db db' : Db D) (now : ℕ)
      (body : CompletePayment) (out : PaymentResult)
      → Completed D draws p r db now body out db'
      → Done D db' out.payment out.reservation
        × (out.payment.id ≡ p.id)
        × (out.reservation.user_id ≡ r.user_id)
  Done-Completed draws p r db db' now body out (replayed n (t, a, b) e) =
      rw (e, a, b) (n, refl, refl)
  Done-Completed draws p r db db' now body out (sold h l (t, a, b) k) =
      rw (k.after, a, b)
        (
          record {
            payment_there = ground (
              arith,
              D.payments.get-save db.payments (paid_payment D draws p r body.provider_reference)
                  k.payments p.id k.saved_payment,
            );
            reservation_there = ground (
              arith,
              D.reservations.get-save db.reservations (settled D draws p r body.provider_reference)
                  k.reservations r.id k.saved_reservation,
            );
            linked = k.linked;
            closed = λ e. cc;
          },
          refl,
          refl,
        )
  Done-Completed draws p r db db' now body out (given_back o n q (t, a, b) k) =
      rw (k.after, a, b)
        (
          record {
            payment_there = ground (
              arith,
              D.payments.get-save db.payments
                  (record p {
                    state = (transition_for o).payment_state;
                    failure_reason = (transition_for o).failure_reason;
                  })
                  k.payments p.id k.saved_payment,
            );
            reservation_there = ground (
              arith,
              D.reservations.get-save db.reservations
                  (record r { state = (transition_for o).reservation_state }) k.reservations r.id
                  k.saved_reservation,
            );
            linked = k.linked;
            closed = not_pending o;
          },
          refl,
          refl,
        )

module _ (D : Repositories) (R : Redis) (user : AuthenticatedUser) (id : ℕ) where
  Done-complete :
      (now : ℕ) (call : Call) (draws : Draws) (body : CompletePayment) (w : World D R) (p : Payment)
      (r : Reservation)
      → Done D w.db p r
      → p.id ≡ id
      → r.user_id ≡ user.sub
      → (out : PaymentResult) × (complete D R now call draws user id body w ≡ (ok out, w))
        × Returns out false p r
  unfolding complete
  Done-complete now call draws body w p r k named mine =
      let (out, e, (t, a, b)) = Done-run D now draws user.sub body w.db p r k mine in
      rw (sym named, e) (out, rw t refl, (t, a, b))

  module _ (now : ℕ) (call : Call) (draws : Draws) (body : CompletePayment) (w : World D R) where
    abbrev inner : Result PaymentResult × Db D
    inner = complete_transaction D now draws id user.sub body w.db

    inner_ok :
        (out : PaymentResult)
        → inner.0 ≡ ok out
        → (complete D R now call draws user id body w).0
          ≡ (tell D R call out.transitioned out (record w { db = inner.1 })).0
    unfolding complete
    inner_ok out e = rw e refl

    returned_inner :
        (first : PaymentResult)
        → (complete D R now call draws user id body w).0 ≡ ok first
        → inner.0 ≡ ok first
    unfolding complete
    returned_inner first h = elim (Result-cases inner.0) [
      | inl (out, e) ↦
          e
          ∙ (sym (tell_returns D R w call out.transitioned out (record w { db = inner.1 }))
              ∙ (sym (inner_ok out e) ∙ h))
      | inr (x, e) ↦ absurd (ground arith)
    ]

  -- `complete` is idempotent: when a completion has returned, any further completion of the payment
  -- by its user, with any outcome and at any time, returns the same payment and the same
  -- reservation, and changes and announces nothing.
  pub complete_repeated :
      (now now' : ℕ) (call call' : Call) (draws draws' : Draws) (body body' : CompletePayment)
      (w : World D R) (first : PaymentResult)
      → (complete D R now call draws user id body w).0 ≡ ok first
      → (again : PaymentResult) × (complete D R now' call' draws' user id body'
            (complete D R now call draws user id body w).1
          ≡ (ok again, (complete D R now call draws user id body w).1))
        × Returns again false first.payment first.reservation
  complete_repeated now now' call call' draws draws' body body' w first h =
      let e = returned_inner now call draws body w first h in
      let d = complete_db_ok D R w now call draws user id body first e in
      let (p, r, named, mine, k) = complete_cases D draws now id user.sub body w.db first e in
      let (done, a, b) =
        Done-Completed D draws p r w.db (complete_transaction D now draws id user.sub body w.db).1
          now body first k in
      Done-complete now' call' draws' body' (complete D R now call draws user id body w).1
        first.payment first.reservation (rw d done) (a ∙ named) (b ∙ mine)
