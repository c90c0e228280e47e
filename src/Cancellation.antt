-- ===== src/Cancellation.antt =====
-- `get` and `cancel` of `ReservationsController` in backend/src/reservations.controller.ts.
use ki_ticket.Base.{ℕ, Bool, not, ◌&&◌, Option, none, some, List, map, ◌==◌}
use ki_ticket.Outcome.{
  conflict, forbidden, not_found, duplicate_key, ok, err, Exec, pure, raise_if, require, gets,
  modify, ◌>>=◌, ◌>>◌,
}
use ki_ticket.Database.{remove_all}
use ki_ticket.Redis.{Redis}
use ki_ticket.Lock.{Call, release}
use ki_ticket.Entities.{
  Reservation, ReservationSeat, SeatState, ReservationState, is_admin, reservation_pending,
}
use ki_ticket.World.{
  Repositories, Db, World, AuthenticatedUser, seat_status, of_reservation, emit_event, publish,
  transaction, on_redis, attempt, send,
}

-- The test of `assertOwner`.
abbrev pub not_owner : Reservation → AuthenticatedUser → Bool
not_owner r user = not (r.user_id == user.sub) && not (is_admin user.role)

-- `seats.map((seat) => seat.seatId)`
abbrev pub seat_ids_of : List ReservationSeat → List ℕ
seat_ids_of = map (λ s. s.seat_id)

module _ (D : Repositories) where
  abbrev pub find_reservation : ℕ → Db D → Option Reservation
  find_reservation id db = D.reservations.find_one_by db.reservations (λ r. r.id == id)

  abbrev pub seats_of : ℕ → Db D → List ReservationSeat
  seats_of id db = D.reservation_seats.find_by db.reservation_seats (λ s. s.reservation_id == id)

  abbrev pub save_reservation : Reservation → Exec (Db D) (Unit {0})
  save_reservation r db = elim (D.reservations.save db.reservations r) [
    | none ↦ (err duplicate_key, db)
    | some t ↦ (ok tt, record db { reservations = t })
  ]

  -- `remove(seats)`
  abbrev pub remove_seats : List ReservationSeat → Exec (Db D) (Unit {0})
  remove_seats seats = modify (λ db. record db {
    reservation_seats = remove_all D.reservation_seats seats db.reservation_seats;
  })

  unfoldable pub get : AuthenticatedUser → ℕ → Exec (Db D) (Reservation × List ReservationSeat)
  get user id = do
    found ← gets (find_reservation id)
    reservation ← require found (not_found "Reservation not found")
    raise_if (not_owner reservation user) (forbidden "Reservation belongs to another user")
    seats ← gets (seats_of id)
    pure (reservation, seats)

  -- The transaction of `cancel`.
  unfoldable pub cancel_reservation :
      AuthenticatedUser → ℕ → Exec (Db D) (Reservation × List ReservationSeat)
  cancel_reservation user id = do
    found ← gets (find_reservation id)
    reservation ← require found (not_found "Reservation not found")
    raise_if (not_owner reservation user) (forbidden "Reservation belongs to another user")
    raise_if (not (reservation_pending reservation.state))
        (conflict "Only pending reservations can be cancelled")
    seats ← gets (seats_of id)
    let cancelled = record reservation { state = ReservationState.cancelled }
    save_reservation cancelled
    remove_seats seats
    pure (cancelled, seats)

  module _ (R : Redis) where
    unfoldable pub cancel : Call → AuthenticatedUser → ℕ → Exec (World D R) Reservation
    cancel call user id = do
      (reservation, seats) ← transaction (cancel_reservation user id)
      attempt (on_redis (release R call reservation.event_id (seat_ids_of seats) reservation.id))
      send (
          emit_event reservation.event_id "seat.status.changed"
            (seat_status reservation.event_id (seat_ids_of seats) SeatState.available))
      send (publish "reservation.cancelled" (of_reservation reservation) reservation.user_id)
      pure reservation
