-- ===== src/Reservation.antt =====
-- `ReservationsController` of backend/src/reservations.controller.ts.
use ki_ticket.Base.{
  ℕ, suc, ◌+◌, String, Bool, not, ◌&&◌, Option, none, some, List, [], ◌∷◌, map, length, has,
  is_empty, ◌==◌, leb, if◌then◌else◌,
}
use ki_ticket.Outcome.{
  Exception, conflict, duplicate_key, Result, ok, err, Exec, pure, raise, lift, raise_if, gets,
  ◌>>=◌, ◌>>◌,
}
use ki_ticket.Database.{insert_all}
use ki_ticket.Redis.{Redis}
use ki_ticket.Lock.{Call, ttl_ms, acquire, release}
use ki_ticket.Entities.{
  Event, Seat, PricingCategory, Reservation, ReservationSeat, SeatState, ReservationState,
}
use ki_ticket.World.{
  Repositories, Db, World, AuthenticatedUser, seat_status, of_reservation, emit_event, publish,
  transaction, on_db, on_redis, attempt, send,
}
use ki_ticket.Pricing.{Prices, price_or_zero, price_seats, total_from, first_currency}
use ki_ticket.WaitingRoom.{assert_admission}

-- `CreateReservationDto`
pub record CreateReservation : Type 0 where
  pub event_id : ℕ
  pub seat_ids : List ℕ
  pub admission_token : Option String

-- What one run of `create` meets outside the tables: the settings, the readings of the clock, the
-- calls of Redis, `randomUUID()`, and the ids that the database generates.
pub record Surroundings : Type 0 where
  pub waiting_room_required : Bool
  pub lock_ttl_seconds : ℕ
  pub admission_at : ℕ
  pub event_at : ℕ
  pub acquire_call : Call
  pub reserved_at : ℕ
  pub release_call : Call
  pub id : ℕ
  pub row_id : ℕ → ℕ

abbrev pub seat_row : Surroundings → ℕ → Prices → ℕ → ℕ → ReservationSeat
seat_row around event_id prices n seat_id = record {
  id = around.row_id n;
  reservation_id = around.id;
  event_id = event_id;
  seat_id = seat_id;
  state = SeatState.locked;
  price = price_or_zero prices seat_id;
}

-- `body.seatIds.map(…)`, from the n-th new row on.
abbrev pub seat_rows : Surroundings → ℕ → Prices → ℕ → List ℕ → List ReservationSeat
seat_rows around event_id prices n [] = []
seat_rows around event_id prices n (seat_id ∷ rest) =
    seat_row around event_id prices n seat_id ∷ seat_rows around event_id prices (suc n) rest

abbrev pub new_reservation :
    Surroundings → ℕ → ℕ → List PricingCategory → Prices → List ℕ → Reservation
new_reservation around user_id event_id pricing prices seat_ids = record {
  id = around.id;
  user_id = user_id;
  event_id = event_id;
  state = ReservationState.pending;
  expires_at = around.reserved_at + ttl_ms around.lock_ttl_seconds;
  total_amount = total_from 0 prices seat_ids;
  currency = first_currency pricing;
}

module _ (D : Repositories) where
  -- `if (!event || event.startsAt <= new Date()) throw …`
  abbrev pub unless_started : Option Event → ℕ → Exec (Db D) Event
  unless_started none now = raise (conflict "Event is unavailable")
  unless_started (some event) now =
      if leb event.starts_at now then raise (conflict "Event is unavailable") else pure event

  unfoldable pub bookable_event : ℕ → ℕ → Exec (Db D) Event
  bookable_event event_id now db =
      unless_started (D.events.find_one_by db.events (λ e. e.id == event_id && e.published)) now db

  -- `sectorIds.length ? await this.seats.findBy(…) : []`
  abbrev pub venue_seats : Db D → List ℕ → List ℕ → List Seat
  venue_seats db [] seat_ids = []
  venue_seats db (sector ∷ rest) seat_ids =
      D.seats.find_by db.seats (λ s. has s.id seat_ids && has s.sector_id (sector ∷ rest))

  abbrev pub sector_ids : Db D → Event → List ℕ
  sector_ids db event =
      map (λ s. s.id) (D.sectors.find_by db.sectors (λ s. s.venue_id == event.venue_id))

  -- The selected seats, which all have to be seats of the event's venue.
  unfoldable pub selected_seats : Event → List ℕ → Exec (Db D) (List Seat)
  selected_seats event seat_ids db =
      let found = venue_seats db (sector_ids db event) seat_ids in
      if length found == length seat_ids
      then (ok found, db)
      else (err (conflict "One or more seats do not belong to the event venue"), db)

  unfoldable pub pricing_of : Event → Exec (Db D) (List PricingCategory)
  pricing_of event = gets (λ db. D.prices.find_by db.prices (λ p. p.event_id == event.id))

  -- `save` of a row that has an id.
  abbrev pub save_reservation : Reservation → Exec (Db D) (Unit {0})
  save_reservation r db = elim (D.reservations.save db.reservations r) [
    | none ↦ (err duplicate_key, db)
    | some t ↦ (ok tt, record db { reservations = t })
  ]

  abbrev pub insert_seats : List ReservationSeat → Exec (Db D) (Unit {0})
  insert_seats rows db = elim (insert_all D.reservation_seats rows db.reservation_seats) [
    | none ↦ (err duplicate_key, db)
    | some t ↦ (ok tt, record db { reservation_seats = t })
  ]

  -- The transaction of `create`.
  unfoldable pub book :
      Surroundings → ℕ → ℕ → List PricingCategory → Prices → List ℕ → Exec (Db D) Reservation
  book around user_id event_id pricing prices seat_ids = do
    occupied ← gets (λ db.
        D.reservation_seats.find_by db.reservation_seats
          (λ s. s.event_id == event_id && has s.seat_id seat_ids))
    raise_if (not (is_empty occupied)) (conflict "At least one selected seat is unavailable")
    save_reservation (new_reservation around user_id event_id pricing prices seat_ids)
    insert_seats (seat_rows around event_id prices 0 seat_ids)
    pure (new_reservation around user_id event_id pricing prices seat_ids)

  -- What `create` reads before it takes the locks: the event, its prices, and those of the seats.
  unfoldable pub check_request :
      Surroundings → ℕ → CreateReservation → Exec (Db D) (Event × List PricingCategory × Prices)
  unfolding bookable_event selected_seats pricing_of
  check_request around user_id body = do
    assert_admission D around.waiting_room_required around.admission_at body.event_id user_id
        body.admission_token
    event ← bookable_event body.event_id around.event_at
    selected ← selected_seats event body.seat_ids
    pricing ← pricing_of event
    prices ← lift (price_seats pricing selected)
    pure (event, pricing, prices)

  module _ (R : Redis) where
    -- `if (String(error).includes('duplicate key')) throw new ConflictException(…); throw error;`
    abbrev pub translated : Exception → Exception
    translated duplicate_key = conflict "At least one selected seat is unavailable"
    translated e = e

    -- The body of the `try`.
    abbrev pub book_and_tell :
        Surroundings → ℕ → ℕ → List PricingCategory → Prices → List ℕ → Exec (World D R) Reservation
    book_and_tell around user_id event_id pricing prices seat_ids = do
      reservation ← transaction (book around user_id event_id pricing prices seat_ids)
      send (
          emit_event event_id "seat.status.changed"
            (seat_status event_id seat_ids SeatState.locked))
      send (publish "reservation.created" (of_reservation reservation) user_id)
      pure reservation

    -- Its `catch`: the locks are given back, and a failure of that is only logged.
    abbrev pub or_release :
        Surroundings → ℕ → List ℕ → Result Reservation → Exec (World D R) Reservation
    or_release around event_id seat_ids (ok reservation) = pure reservation
    or_release around event_id seat_ids (err e) = do
      attempt (on_redis (release R around.release_call event_id seat_ids around.id))
      raise (translated e)

    unfoldable pub create :
        Surroundings → AuthenticatedUser → CreateReservation → Exec (World D R) Reservation
    create around user body = do
      (event, pricing, prices) ← on_db (check_request around user.sub body)
      on_redis
          (acquire R around.acquire_call around.lock_ttl_seconds event.id body.seat_ids around.id)
      outcome ← attempt (book_and_tell around user.sub event.id pricing prices body.seat_ids)
      or_release around event.id body.seat_ids outcome
