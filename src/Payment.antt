-- ===== src/Payment.antt =====
-- `PaymentsController` of backend/src/payments.controller.ts.
use ki_ticket.Base.{
  ℕ, suc, String, Bool, true, false, not, Option, none, some, List, [], ◌∷◌, map, is_empty, ◌==◌,
  leb,
}
use ki_ticket.Outcome.{
  conflict, forbidden, duplicate_key, ok, err, Exec, pure, raise_if, require, gets, ◌>>=◌, ◌>>◌,
}
use ki_ticket.Database.{insert_all, save_all}
use ki_ticket.Entities.{Reservation, ReservationSeat, Payment, Ticket, SeatState, PaymentState}
use ki_ticket.World.{Repositories, Db}
use ki_ticket.PaymentPolicy.{PaymentOutcome, PaymentTransition, determine_payment_transition}
use ki_ticket.Cancellation.{seat_ids_of, seats_of, find_reservation, save_reservation, remove_seats}

-- `StartPaymentDto` and `CompletePaymentDto`
pub record StartPayment : Type 0 where
  pub reservation_id : ℕ
  pub idempotency_key : String

pub record CompletePayment : Type 0 where
  pub outcome : PaymentOutcome
  pub provider_reference : Option String

-- The random values of one run: `randomBytes(8)`, and for the n-th ticket its token and the id that
-- the database generates. `sha256` is the hash of the `crypto` package.
pub record Draws : Type 0 where
  pub reference : String
  pub token : ℕ → String
  pub ticket_id : ℕ → ℕ
  pub sha256 : String → String
  pub issued_at : ℕ

pub record PaymentResult : Type 0 where
  pub payment : Payment
  pub reservation : Reservation
  pub tickets : List Ticket
  pub seat_ids : List ℕ
  pub transitioned : Bool

abbrev pub is_success : PaymentState → Bool
is_success PaymentState.success = true
is_success _ = false

abbrev pub new_payment : ℕ → Reservation → String → Payment
new_payment id r key = record {
  id = id;
  reservation_id = r.id;
  idempotency_key = some key;
  state = PaymentState.pending;
  amount = r.total_amount;
  currency = r.currency;
  reference = none;
  failure_reason = none;
}

abbrev pub booked : ReservationSeat → ReservationSeat
booked s = record s { state = SeatState.booked }

module _ (draws : Draws) (reservation_id : ℕ) where
  -- The tickets of the seats, from the n-th on.
  abbrev pub new_tickets : ℕ → List ReservationSeat → List Ticket
  new_tickets n [] = []
  new_tickets n (s ∷ rest) =
      record {
        id = draws.ticket_id n;
        reservation_id = reservation_id;
        seat_id = s.seat_id;
        token = draws.token n;
        qr_hash = draws.sha256 (draws.token n);
        checked_in_at = none;
        issued_at = draws.issued_at;
      }
      ∷ new_tickets (suc n) rest

module _ (D : Repositories) where
  abbrev pub find_payment : ℕ → Db D → Option Payment
  find_payment id db = D.payments.find_one_by db.payments (λ p. p.id == id)

  abbrev pub save_payment : Payment → Exec (Db D) (Unit {0})
  save_payment p db = elim (D.payments.save db.payments p) [
    | none ↦ (err duplicate_key, db)
    | some t ↦ (ok tt, record db { payments = t })
  ]

  abbrev pub save_seats : List ReservationSeat → Exec (Db D) (Unit {0})
  save_seats rows db = elim (save_all D.reservation_seats rows db.reservation_seats) [
    | none ↦ (err duplicate_key, db)
    | some t ↦ (ok tt, record db { reservation_seats = t })
  ]

  abbrev pub insert_tickets : List Ticket → Exec (Db D) (Unit {0})
  insert_tickets rows db = elim (insert_all D.tickets rows db.tickets) [
    | none ↦ (err duplicate_key, db)
    | some t ↦ (ok tt, record db { tickets = t })
  ]

  -- The branch of `completeTransaction` for a successful outcome.
  unfoldable pub issue :
      Draws
      → Payment
      → Reservation
      → List ReservationSeat
      → PaymentTransition
      → Option String
      → Exec (Db D) PaymentResult
  issue draws payment reservation seats transition reference = do
    raise_if (is_empty seats) (conflict "Reservation has no locked seats")
    let paid = record payment {
      state = transition.payment_state;
      reference = some (elim reference [ some given ↦ given | none ↦ draws.reference ]);
    }
    let settled = record reservation { state = transition.reservation_state }
    save_seats (map booked seats)
    let tickets = new_tickets draws reservation.id 0 seats
    insert_tickets tickets
    save_reservation D settled
    save_payment paid
    pure (record {
      payment = paid;
      reservation = settled;
      tickets = tickets;
      seat_ids = seat_ids_of seats;
      transitioned = true;
    })

  -- Its branch for every other outcome.
  unfoldable pub compensate :
      Payment → Reservation → List ReservationSeat → PaymentTransition → Exec (Db D) PaymentResult
  compensate payment reservation seats transition = do
    let failed = record payment {
      state = transition.payment_state;
      failure_reason = transition.failure_reason;
    }
    let settled = record reservation { state = transition.reservation_state }
    remove_seats D seats
    save_reservation D settled
    save_payment failed
    pure (record {
      payment = failed;
      reservation = settled;
      tickets = [];
      seat_ids = seat_ids_of seats;
      transitioned = true;
    })

  abbrev pub settle :
      PaymentOutcome
      → Draws
      → Payment
      → Reservation
      → List ReservationSeat
      → PaymentTransition
      → Option String
      → Exec (Db D) PaymentResult
  settle PaymentOutcome.success draws payment reservation seats transition reference =
      issue draws payment reservation seats transition reference
  settle _ draws payment reservation seats transition reference =
      compensate payment reservation seats transition

  abbrev pub replay : Payment → Reservation → List ReservationSeat → Exec (Db D) PaymentResult
  replay payment reservation seats = do
    tickets ← gets (λ db. D.tickets.find_by db.tickets (λ t. t.reservation_id == reservation.id))
    pure (record {
      payment = payment;
      reservation = reservation;
      tickets = tickets;
      seat_ids = seat_ids_of seats;
      transitioned = false;
    })

  -- The end of `completeTransaction`, for a payment in the given state.
  unfoldable pub conclude :
      PaymentState
      → ℕ
      → Draws
      → CompletePayment
      → Payment
      → Reservation
      → List ReservationSeat
      → Exec (Db D) PaymentResult
  unfolding determine_payment_transition
  conclude PaymentState.pending now draws body payment reservation seats =
      let transition = determine_payment_transition body.outcome (leb reservation.expires_at now) in
      settle transition.outcome draws payment reservation seats transition body.provider_reference
  conclude _ now draws body payment reservation seats = replay payment reservation seats

  unfoldable pub complete_transaction :
      ℕ → Draws → ℕ → ℕ → CompletePayment → Exec (Db D) PaymentResult
  complete_transaction now draws id user_id body = do
    found ← gets (find_payment id)
    payment ← require found (conflict "Payment not found")
    linked ← gets (find_reservation D payment.reservation_id)
    reservation ← require linked (conflict "Reservation not found")
    raise_if (not (reservation.user_id == user_id)) (forbidden "Payment belongs to another user")
    seats ← gets (seats_of D reservation.id)
    conclude payment.state now draws body payment reservation seats
