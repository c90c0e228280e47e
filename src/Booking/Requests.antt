-- ===== src/Booking/Requests.antt =====
-- The endpoints of backend/src/reservations.controller.ts and backend/src/payments.controller.ts, and
-- the expiry sweep, refine the step system: what a request does to the tables is a sequence of steps.
use ki_ticket.Base.{ℕ, ◌≡◌, refl, Bool, true, false, none, List, arith, inl, inr, List-cases}
use ki_ticket.Outcome.{Exception, Result, ok, err, Result-cases}
use ki_ticket.Redis.{Redis}
use ki_ticket.Lock.{Call}
use ki_ticket.Entities.{Reservation, ReservationSeat, Payment}
use ki_ticket.World.{Repositories, World, AuthenticatedUser}
use ki_ticket.Reservation.{Surroundings, CreateReservation, create}
use ki_ticket.Cancellation.{cancel_reservation, cancel}
use ki_ticket.Payment.{Draws, CompletePayment, PaymentResult, StartPayment, complete_transaction}
use ki_ticket.Checkout.{start, complete, tell}
use ki_ticket.Booking.Create.{Created, refused, rolled_back, reserved, create_cases}
use ki_ticket.Booking.Start.{Started, refused_start, resumed, opened, collided, start_cases}
use ki_ticket.Booking.Steps.{books, cancels, starts, completes, Reach, here, next}

module _ (D : Repositories) (R : Redis) (w : World D R) where
  Created-Reach :
      (around : Surroundings) (user : AuthenticatedUser) (body : CreateReservation)
      (out : Result Reservation) (w' : World D R)
      → D.reservations.get w.db.reservations around.id ≡ none
      → Created D R around user body w out w'
      → Reach D w.db w'.db
  Created-Reach around user body out w' fresh (refused e) = here
  Created-Reach around user body out w' fresh (rolled_back offer e k b) = here
  Created-Reach around user body out w' fresh (reserved (event, pricing, prices) r c k b) =
      next here (books around user.sub event.id pricing prices body.seat_ids r fresh b)

  -- A run of `create` under an id that no reservation has changes the tables by steps of the system
  -- only.
  pub create-Reach :
      (around : Surroundings) (user : AuthenticatedUser) (body : CreateReservation)
      → D.reservations.get w.db.reservations around.id ≡ none
      → Reach D w.db (create D R around user body w).1.db
  create-Reach around user body fresh =
      Created-Reach around user body (create D R around user body w).0
        (create D R around user body w).1 fresh (create_cases D R around user body w)

  cancel_db_ok :
      (call : Call) (user : AuthenticatedUser) (id : ℕ) (out : Reservation × List ReservationSeat)
      → (cancel_reservation D user id w.db).0 ≡ ok out
      → (cancel D R call user id w).1.db ≡ (cancel_reservation D user id w.db).1
  unfolding cancel
  cancel_db_ok call user id out h = ground arith

  cancel_db_err :
      (call : Call) (user : AuthenticatedUser) (id : ℕ) (e : Exception)
      → (cancel_reservation D user id w.db).0 ≡ err e
      → (cancel D R call user id w).1.db ≡ w.db
  unfolding cancel
  cancel_db_err call user id e h = ground arith

  -- A run of `cancel` changes the tables by steps of the system only.
  pub cancel-Reach :
      (call : Call) (user : AuthenticatedUser) (id : ℕ)
      → Reach D w.db (cancel D R call user id w).1.db
  cancel-Reach call user id = elim (Result-cases (cancel_reservation D user id w.db).0) [
    | inl (out, h) ↦ rw (cancel_db_ok call user id out h) (next here (cancels user id out h))
    | inr (e, h) ↦ rw (cancel_db_err call user id e h) here
  ]

  -- The messages after a completion leave the tables.
  tell_db :
      (call : Call) (b : Bool) (out : PaymentResult) (v : World D R)
      → (tell D R call b out v).1.db ≡ v.db
  tell_db call false out v = refl
  tell_db call true out v = elim (List-cases out.tickets) [
    | inl e ↦ ground arith
    | inr (t, rest, e) ↦ ground arith
  ]

  pub tell_returns :
      (call : Call) (b : Bool) (out : PaymentResult) (v : World D R)
      → (tell D R call b out v).0 ≡ ok out
  tell_returns call false out v = refl
  tell_returns call true out v = elim (List-cases out.tickets) [
    | inl e ↦ ground arith
    | inr (t, rest, e) ↦ ground arith
  ]

  pub complete_db_ok :
      (now : ℕ) (call : Call) (draws : Draws) (user : AuthenticatedUser) (id : ℕ)
      (body : CompletePayment) (out : PaymentResult)
      → (complete_transaction D now draws id user.sub body w.db).0 ≡ ok out
      → (complete D R now call draws user id body w).1.db
        ≡ (complete_transaction D now draws id user.sub body w.db).1
  unfolding complete
  complete_db_ok now call draws user id body out h = rw h (
      tell_db call out.transitioned out
        (record w { db = (complete_transaction D now draws id user.sub body w.db).1 }))

  complete_db_err :
      (now : ℕ) (call : Call) (draws : Draws) (user : AuthenticatedUser) (id : ℕ)
      (body : CompletePayment) (e : Exception)
      → (complete_transaction D now draws id user.sub body w.db).0 ≡ err e
      → (complete D R now call draws user id body w).1.db ≡ w.db
  unfolding complete
  complete_db_err now call draws user id body e h = ground arith

  -- A run of `complete` changes the tables by steps of the system only.
  pub complete-Reach :
      (now : ℕ) (call : Call) (draws : Draws) (user : AuthenticatedUser) (id : ℕ)
      (body : CompletePayment)
      → Reach D w.db (complete D R now call draws user id body w).1.db
  complete-Reach now call draws user id body =
      elim (Result-cases (complete_transaction D now draws id user.sub body w.db).0) [
        | inl (out, h) ↦
            rw (complete_db_ok now call draws user id body out h)
              (next here (completes now draws id user.sub body out h))
        | inr (e, h) ↦ rw (complete_db_err now call draws user id body e h) here
      ]

  Started-Reach :
      (now id : ℕ) (user : AuthenticatedUser) (body : StartPayment) (out : Result Payment)
      (w' : World D R)
      → Started D R now id user body w out w'
      → Reach D w.db w'.db
  Started-Reach now id user body out w' (refused_start e) = here
  Started-Reach now id user body out w' (resumed p r a b) = here
  Started-Reach now id user body out w' (opened r t a b c) =
      next here (starts id r body.idempotency_key t c)
  Started-Reach now id user body out w' (collided r p a b c d) = here

  -- A run of `start` changes the tables by steps of the system only.
  pub start-Reach :
      (now id : ℕ) (user : AuthenticatedUser) (body : StartPayment)
      → Reach D w.db (start D R now id user body w).1.db
  start-Reach now id user body =
      Started-Reach now id user body (start D R now id user body w).0
        (start D R now id user body w).1 (start_cases D R now id user body w)
