-- ===== src/Checkout.antt =====
-- The endpoints `start` and `complete` of backend/src/payments.controller.ts.
use ki_ticket.Base.{
  ℕ, String, Bool, true, false, not, ◌||◌, Option, none, some, List, [], ◌∷◌, map, ◌==◌, leb,
}
use ki_ticket.Outcome.{
  conflict, forbidden, entity_not_found, ok, Exec, pure, raise_if, require, gets, ◌>>=◌, ◌>>◌,
}
use ki_ticket.Redis.{Redis}
use ki_ticket.Lock.{Call, release}
use ki_ticket.Entities.{Reservation, Payment, Ticket, SeatState, reservation_pending, same_text}
use ki_ticket.World.{
  Repositories, Db, World, AuthenticatedUser, seat_status, of_payment, of_ticket_ids, of_tickets,
  emit_user, emit_event, publish, transaction, on_db, on_redis, attempt, send,
}
use ki_ticket.Cancellation.{find_reservation}
use ki_ticket.Payment.{
  StartPayment, CompletePayment, Draws, PaymentResult, is_success, new_payment,
  complete_transaction,
}

module _ (D : Repositories) where
  -- `payments.save` of a new payment; `some` is the stored one, `none` a "duplicate key" error.
  abbrev pub insert_payment : Payment → Exec (Db D) (Option Payment)
  insert_payment p db = elim (D.payments.insert db.payments p) [
    | none ↦ (ok none, db)
    | some t ↦ (ok (some p), record db { payments = t })
  ]

  abbrev pub payment_with_key : String → Db D → Option Payment
  payment_with_key key db =
      D.payments.find_one_by db.payments (λ p. same_text p.idempotency_key (some key))

  abbrev pub payment_for : ℕ → Db D → Option Payment
  payment_for reservation_id db =
      D.payments.find_one_by db.payments (λ p. p.reservation_id == reservation_id)

  abbrev pub not_payable : Reservation → ℕ → Bool
  not_payable r now = not (reservation_pending r.state) || leb r.expires_at now

  -- `start` for a key that a payment has.
  abbrev pub resume : AuthenticatedUser → StartPayment → Payment → Exec (Db D) Payment
  resume user body existing = do
    linked ← gets (find_reservation D existing.reservation_id)
    reservation ← require linked entity_not_found
    raise_if (not (reservation.user_id == user.sub) || not (reservation.id == body.reservation_id))
        (conflict "Idempotency key belongs to another request")
    pure existing

  -- The checks of `start` for a new key.
  abbrev pub payable : ℕ → AuthenticatedUser → StartPayment → Exec (Db D) Reservation
  payable now user body = do
    found ← gets (find_reservation D body.reservation_id)
    reservation ← require found entity_not_found
    raise_if (not (reservation.user_id == user.sub))
        (forbidden "Reservation belongs to another user")
    raise_if (not_payable reservation now) (conflict "Reservation is no longer payable")
    pure reservation

  module _ (R : Redis) where
    -- The result of the insertion: a new payment is announced, a duplicate is looked up.
    abbrev pub announce : ℕ → ℕ → Option Payment → Exec (World D R) Payment
    announce user_id reservation_id none = do
      other ← on_db (gets (payment_for reservation_id))
      require other entity_not_found
    announce user_id reservation_id (some payment) = do
      send (emit_user user_id "payment.started" (of_payment payment))
      send (publish "payment.started" (of_payment payment) user_id)
      pure payment

    abbrev pub start_new : ℕ → ℕ → AuthenticatedUser → StartPayment → Exec (World D R) Payment
    start_new now id user body = do
      reservation ← on_db (payable now user body)
      inserted ← on_db (insert_payment (new_payment id reservation body.idempotency_key))
      announce user.sub reservation.id inserted

    abbrev pub resume_or_start :
        Option Payment → ℕ → ℕ → AuthenticatedUser → StartPayment → Exec (World D R) Payment
    resume_or_start none now id user body = start_new now id user body
    resume_or_start (some existing) now id user body = on_db (resume user body existing)

    -- `id` is the id that the database generates for a new payment.
    unfoldable pub start : ℕ → ℕ → AuthenticatedUser → StartPayment → Exec (World D R) Payment
    start now id user body = do
      existing ← on_db (gets (payment_with_key body.idempotency_key))
      resume_or_start existing now id user body

    abbrev pub event_name : Payment → String
    event_name p = elim (is_success p.state) [
      | true ↦ "payment.succeeded"
      | false ↦ "payment.failed"
    ]

    abbrev pub seats_become : Payment → SeatState
    seats_become p = elim (is_success p.state) [
      | true ↦ SeatState.booked
      | false ↦ SeatState.available
    ]

    abbrev pub ticket_ids : List Ticket → List ℕ
    ticket_ids = map (λ t. t.id)

    -- `if (result.tickets.length) …`
    abbrev pub tell_tickets : ℕ → List Ticket → Exec (World D R) (Unit {0})
    tell_tickets user_id [] = pure tt
    tell_tickets user_id (t ∷ rest) = do
      send (emit_user user_id "ticket.issued" (of_ticket_ids (ticket_ids (t ∷ rest))))
      send (publish "ticket.issued" (of_tickets (t ∷ rest)) user_id)

    -- What follows the transaction of `complete`.
    abbrev pub tell : Call → Bool → PaymentResult → Exec (World D R) PaymentResult
    tell call false result = pure result
    tell call true result = do
      attempt (
          on_redis
            (release R call result.reservation.event_id result.seat_ids result.reservation.id))
      send (
          emit_user result.reservation.user_id (event_name result.payment)
            (of_payment result.payment))
      send (
          emit_event result.reservation.event_id "seat.status.changed"
            (seat_status result.reservation.event_id result.seat_ids (seats_become result.payment)))
      send (
          publish (event_name result.payment) (of_payment result.payment)
            result.reservation.user_id)
      tell_tickets result.reservation.user_id result.tickets
      pure result

    unfoldable pub complete :
        ℕ → Call → Draws → AuthenticatedUser → ℕ → CompletePayment → Exec (World D R) PaymentResult
    complete now call draws user id body = do
      result ← transaction (complete_transaction D now draws id user.sub body)
      tell call result.transitioned result
