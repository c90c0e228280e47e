-- ===== src/Booking/Conclude.antt =====
-- Every way in which `completeTransaction` of backend/src/payments.controller.ts returns.
use ki_ticket.Base.{
  ℕ, ◌≡◌, ◌≢◌, refl, sym, ap, ◌∙◌, Bool, true, false, some, arith, ◌==◌, ◌<◌, ==_iff, leb, inl, inr,
  Option-cases,
}
use ki_ticket.Outcome.{Result, ok}
use ki_ticket.Entities.{Reservation, Payment, ReservationState, PaymentState}
use ki_ticket.World.{Repositories, Db}
use ki_ticket.PaymentPolicy.{PaymentOutcome, transition_for, effective}
use ki_ticket.Cancellation.{seats_of, find_reservation}
use ki_ticket.Payment.{
  Draws, CompletePayment, PaymentResult, settle, find_payment, conclude, complete_transaction,
}
use ki_ticket.Booking.Invariant.{IsConsistent}
use ki_ticket.Booking.Pay.{Issued, paid_payment, settled}
use ki_ticket.Booking.Issue.{Issued-IsConsistent}
use ki_ticket.Booking.Complete.{Compensated, Compensated-IsConsistent, issue_ok, compensate_ok}
use ki_ticket.Booking.Returned.{issue_transitioned, compensate_transitioned}

effective_success :
    (o : PaymentOutcome) (late : Bool)
    → PaymentOutcome.success ≡ effective o late
    → (o ≡ PaymentOutcome.success) × (late ≡ false)
effective_success o late e = ground arith

-- What a result says of its payment and its reservation.
abbrev pub Returns : PaymentResult → Bool → Payment → Reservation → Type 0
Returns out transitioned p r =
    (out.transitioned ≡ transitioned) × (out.payment ≡ p) × (out.reservation ≡ r)

-- The tables hold a payment that is no longer pending, and its reservation.
pub record Done (D : Repositories) (db : Db D) (p : Payment) (r : Reservation) : Type 0 where
  pub payment_there : D.payments.get db.payments p.id ≡ some p
  pub reservation_there : D.reservations.get db.reservations r.id ≡ some r
  pub linked : p.reservation_id ≡ r.id
  pub closed : p.state ≢ PaymentState.pending

module _ (D : Repositories) (draws : Draws) (p : Payment) (r : Reservation) (db : Db D) where
  -- The tables after a completion of the payment `p` of the reservation `r`: as they were, if the
  -- payment was completed before; else with the seats sold, or given back.
  pub data Completed (now : ℕ) (body : CompletePayment) (out : PaymentResult) (db' : Db D)
      : Type 0 where
    replayed : Done D db p r → Returns out false p r → db' ≡ db → Completed now body out db'
    sold :
        body.outcome ≡ PaymentOutcome.success
        → now < r.expires_at
        → Returns out true
            (paid_payment D draws p r body.provider_reference)
            (settled D draws p r body.provider_reference)
        → Issued D draws p r body.provider_reference db db'
        → Completed now body out db'
    given_back :
        (o : PaymentOutcome)
        → o ≢ PaymentOutcome.success
        → o ≡ effective body.outcome (leb r.expires_at now)
        → Returns out true
            (record p {
              state = (transition_for o).payment_state;
              failure_reason = (transition_for o).failure_reason;
            })
            (record r { state = (transition_for o).reservation_state })
        → Compensated D (transition_for o) p r db db'
        → Completed now body out db'

  module _ (reservation_there : D.reservations.get db.reservations r.id ≡ some r)
      (payment_there : D.payments.get db.payments p.id ≡ some p)
      (linked : p.reservation_id ≡ r.id) where
    settle_cases :
        (o : PaymentOutcome) (now : ℕ) (body : CompletePayment) (out : PaymentResult)
        → p.state ≡ PaymentState.pending
        → o ≡ effective body.outcome (leb r.expires_at now)
        → (settle D
            (transition_for o).outcome
            draws
            p
            r
            (seats_of D r.id db)
            (transition_for o)
            body.provider_reference
            db).0
          ≡ ok out
        → Completed now body out
            (settle D
              (transition_for o).outcome
              draws
              p
              r
              (seats_of D r.id db)
              (transition_for o)
              body.provider_reference
              db).1
    settle_cases PaymentOutcome.success now body out unpaid e h =
        sold (effective_success body.outcome (leb r.expires_at now) e).0
          (ground (arith, effective_success body.outcome (leb r.expires_at now) e))
          (issue_transitioned D draws p r db body.provider_reference (seats_of D r.id db)
            (transition_for PaymentOutcome.success) out h)
          (issue_ok D draws p r db reservation_there payment_there linked unpaid
            body.provider_reference out h)
    settle_cases PaymentOutcome.failure now body out unpaid e h =
        given_back PaymentOutcome.failure (λ q. cc) e
          (compensate_transitioned D p r db (seats_of D r.id db)
            (transition_for PaymentOutcome.failure) out h)
          (compensate_ok D draws p r db reservation_there payment_there linked unpaid
            (transition_for PaymentOutcome.failure) out h)
    settle_cases PaymentOutcome.timeout now body out unpaid e h =
        given_back PaymentOutcome.timeout (λ q. cc) e
          (compensate_transitioned D p r db (seats_of D r.id db)
            (transition_for PaymentOutcome.timeout) out h)
          (compensate_ok D draws p r db reservation_there payment_there linked unpaid
            (transition_for PaymentOutcome.timeout) out h)

    done : p.state ≢ PaymentState.pending → Done D db p r
    done n = record {
      payment_there = payment_there;
      reservation_there = reservation_there;
      linked = linked;
      closed = n;
    }

    conclude_cases :
        (st : PaymentState) (now : ℕ) (body : CompletePayment) (out : PaymentResult)
        → p.state ≡ st
        → (conclude D st now draws body p r (seats_of D r.id db) db).0 ≡ ok out
        → Completed now body out (conclude D st now draws body p r (seats_of D r.id db) db).1
    unfolding conclude
    conclude_cases PaymentState.pending now body out e h =
        settle_cases (effective body.outcome (leb r.expires_at now)) now body out e refl h
    conclude_cases PaymentState.success now body out e h =
        replayed (done (λ q. cc (e, q))) (ground arith) refl
    conclude_cases PaymentState.failed now body out e h =
        replayed (done (λ q. cc (e, q))) (ground arith) refl
    conclude_cases PaymentState.timeout now body out e h =
        replayed (done (λ q. cc (e, q))) (ground arith) refl
    conclude_cases PaymentState.cancelled now body out e h =
        replayed (done (λ q. cc (e, q))) (ground arith) refl

module _ (D : Repositories) (draws : Draws) (now id user_id : ℕ) (body : CompletePayment) where
  abbrev pub Completes : Db D → PaymentResult → Db D → Type 0
  Completes db out db' =
      (p : Payment) × (r : Reservation) × (p.id ≡ id)
      × (r.user_id ≡ user_id)
      × Completed D draws p r db now body out db'

  module _ (db : Db D) (p : Payment) (r : Reservation) (found : find_payment D id db ≡ some p)
      (linked : find_reservation D p.reservation_id db ≡ some r) where
    owned :
        (out : PaymentResult)
        → (complete_transaction D now draws id user_id body db).0 ≡ ok out
        → (r.user_id == user_id) ≡ true
    unfolding complete_transaction
    owned out h = ground arith

    run :
        (r.user_id == user_id) ≡ true
        → complete_transaction D now draws id user_id body db
          ≡ conclude D p.state now draws body p r (seats_of D r.id db) db
    unfolding complete_transaction
    run h = ground arith

    ends :
        (out : PaymentResult)
        → (complete_transaction D now draws id user_id body db).0 ≡ ok out
        → Completes db out (complete_transaction D now draws id user_id body db).1
    ends out h =
        let (gp, kp) = D.payments.found db.payments (λ q. q.id == id) p found in
        let (gr, kr) =
          D.reservations.found db.reservations (λ x. x.id == p.reservation_id) r linked in
        let mine = owned out h in
        let e = run mine in
        (
          p,
          r,
          (==_iff p.id id).0 kp,
          (==_iff r.user_id user_id).0 mine,
          rw e (
              conclude_cases D draws p r db gr gp (sym ((==_iff r.id p.reservation_id).0 kr))
                p.state now body out refl
                (ap (λ (x : Result PaymentResult × Db D). x.0) (sym e) ∙ h)),
        )

  -- A completion that returns is of the payment that was asked for and for a reservation of the
  -- user, and it has replayed the payment, sold the seats, or given them back.
  pub complete_cases :
      (db : Db D) (out : PaymentResult)
      → (complete_transaction D now draws id user_id body db).0 ≡ ok out
      → Completes db out (complete_transaction D now draws id user_id body db).1
  complete_cases db out h = elim (Option-cases (find_payment D id db)) [
    | inl e ↦ absurd (unfold complete_transaction in ground arith)
    | inr (p, e) ↦ elim (Option-cases (find_reservation D p.reservation_id db)) [
      | inl f ↦ absurd (unfold complete_transaction in ground arith)
      | inr (r, f) ↦ ends db p r e f out h
    ]
  ]

  not_success :
      (o : PaymentOutcome)
      → o ≢ PaymentOutcome.success
      → ((transition_for o).reservation_state ≢ ReservationState.confirmed)
        × ((transition_for o).payment_state ≢ PaymentState.success)
  not_success PaymentOutcome.success n = absurd (n refl)
  not_success PaymentOutcome.failure n = (λ e. cc, λ e. cc)
  not_success PaymentOutcome.timeout n = (λ e. cc, λ e. cc)

  Completed-IsConsistent :
      (db db' : Db D) (out : PaymentResult) (p : Payment) (r : Reservation)
      → Completed D draws p r db now body out db'
      → IsConsistent D db
      → IsConsistent D db'
  Completed-IsConsistent db db' out p r (replayed n t e) c = rw e c
  Completed-IsConsistent db db' out p r (sold a b t k) c =
      Issued-IsConsistent D draws p r body.provider_reference db db' k c
  Completed-IsConsistent db db' out p r (given_back o n e t k) c =
      Compensated-IsConsistent D (transition_for o) p r db db' (not_success o n).0
        (not_success o n).1 k c

  pub complete-IsConsistent :
      (db : Db D) (out : PaymentResult)
      → IsConsistent D db
      → (complete_transaction D now draws id user_id body db).0 ≡ ok out
      → IsConsistent D (complete_transaction D now draws id user_id body db).1
  complete-IsConsistent db out c h =
      let (p, r, _, _, k) = complete_cases db out h in
      Completed-IsConsistent db (complete_transaction D now draws id user_id body db).1 out p r k c
