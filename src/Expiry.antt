-- ===== src/Expiry.antt =====
-- `ExpiryService` of backend/src/reservations.controller.ts: the sweep over stale reservations.
use ki_ticket.Base.{
  ℕ, suc, ◌+◌, Bool, true, false, ◌&&◌, Option, none, some, List, [], ◌∷◌, take, ◌==◌, leb,
}
use ki_ticket.Outcome.{Exec, pure, gets, ◌>>=◌, ◌>>◌}
use ki_ticket.Redis.{Redis}
use ki_ticket.Lock.{Call, release}
use ki_ticket.Entities.{
  Reservation, ReservationSeat, SeatState, ReservationState, reservation_pending,
}
use ki_ticket.World.{
  Repositories, Db, World, seat_status, of_reservation, emit_event, publish, transaction, on_db,
  on_redis, attempt, send,
}
use ki_ticket.Cancellation.{seat_ids_of, seats_of, save_reservation, remove_seats}

abbrev pub is_stale : ℕ → Reservation → Bool
is_stale now r = reservation_pending r.state && leb r.expires_at now

module _ (D : Repositories) where
  -- `update({ id, state: PENDING }, { state: EXPIRED })`; the result is whether a row was affected.
  abbrev pub expire_pending : Option Reservation → Exec (Db D) Bool
  expire_pending none = pure false
  expire_pending (some r) = do
    save_reservation D (record r { state = ReservationState.expired })
    pure true

  abbrev pub remove_if : Bool → List ReservationSeat → Exec (Db D) (Unit {0})
  remove_if true seats = remove_seats D seats
  remove_if false seats = pure tt

  -- The transaction of one round of `expire`, on the seats that were read before it.
  unfoldable pub expire_reservation : ℕ → List ReservationSeat → Exec (Db D) Bool
  expire_reservation id seats = do
    row ← gets (λ db.
        D.reservations.find_one_by db.reservations (λ r. r.id == id && reservation_pending r.state))
    affected ← expire_pending row
    remove_if affected seats
    pure affected

  abbrev pub stale : ℕ → Db D → List Reservation
  stale now db = take 100 (D.reservations.find_by db.reservations (is_stale now))

  module _ (R : Redis) where
    -- What follows the transaction of a round: nothing, if another request was faster.
    unfoldable pub tell_expired :
        Call → Reservation → List ReservationSeat → Bool → Exec (World D R) ℕ
    tell_expired call reservation seats false = pure 0
    tell_expired call reservation seats true = do
      attempt (on_redis (release R call reservation.event_id (seat_ids_of seats) reservation.id))
      send (
          emit_event reservation.event_id "seat.status.changed"
            (seat_status reservation.event_id (seat_ids_of seats) SeatState.available))
      send (publish "reservation.expired" (of_reservation reservation) reservation.user_id)
      pure 1

    -- One round of the loop.
    unfoldable pub expire_one : Call → Reservation → Exec (World D R) ℕ
    unfolding tell_expired
    expire_one call reservation = do
      seats ← on_db (gets (seats_of D reservation.id))
      changed ← transaction (expire_reservation reservation.id seats)
      tell_expired call reservation seats changed

    -- The loop; the n-th round meets the n-th call of Redis.
    unfoldable pub expire_all : (ℕ → Call) → ℕ → ℕ → List Reservation → Exec (World D R) ℕ
    expire_all calls n expired [] = pure expired
    expire_all calls n expired (reservation ∷ rest) = do
      more ← expire_one (calls n) reservation
      expire_all calls (suc n) (expired + more) rest

    unfoldable pub expire : ℕ → (ℕ → Call) → Exec (World D R) ℕ
    expire now calls = do rows ← on_db (gets (stale now)); expire_all calls 0 0 rows
