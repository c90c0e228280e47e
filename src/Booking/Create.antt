-- ===== src/Booking/Create.antt =====
-- The handler `create` of backend/src/reservations.controller.ts as a whole: the database, the
-- locks and the messages after every outcome.
use ki_ticket.Base.{ℕ, ◌≡◌, List, [], ◌∷◌, ◌++◌, arith, inl, inr}
use ki_ticket.Outcome.{Exception, Result, ok, err, Result-cases}
use ki_ticket.Redis.{Redis}
use ki_ticket.Lock.Atomicity.{acquire_atomic}
use ki_ticket.Lock.{acquire, release}
use ki_ticket.Entities.{Event, PricingCategory, Reservation, SeatState}
use ki_ticket.World.{
  Repositories, Db, World, AuthenticatedUser, Message, seat_status, of_reservation, emit_event,
  publish,
}
use ki_ticket.WaitingRoom.Admission.{admission_reads}
use ki_ticket.Pricing.{Prices}
use ki_ticket.Reservation.{
  Surroundings, CreateReservation, check_request, book, create, translated, bookable_event,
  selected_seats, pricing_of,
}

module _ (D : Repositories) (around : Surroundings) where
  check_request_reads :
      (user_id : ℕ) (body : CreateReservation) (db : Db D)
      → (check_request D around user_id body db).1 ≡ db
  unfolding check_request bookable_event selected_seats pricing_of
  check_request_reads user_id body db =
      let same =
        admission_reads D around.admission_at body.event_id user_id around.waiting_room_required
          body.admission_token db in
      rw same (ground arith)

module _ (D : Repositories) (R : Redis) (around : Surroundings) (user : AuthenticatedUser)
    (body : CreateReservation) (w : World D R) where
  abbrev pub Offer : Type 0
  Offer = Event × List PricingCategory × Prices

  -- The locks of the run are asked for, for an event.
  abbrev pub locked : ℕ → Result (Unit {0}) × R.Store
  locked event_id =
      acquire R around.acquire_call around.lock_ttl_seconds event_id body.seat_ids around.id w.store

  abbrev pub booking : Offer → Result Reservation × Db D
  booking (event, pricing, prices) =
      book D around user.sub event.id pricing prices body.seat_ids w.db

  abbrev pub told : ℕ → Reservation → List Message
  told event_id r =
      (w.sent
        ++ emit_event event_id "seat.status.changed"
            (seat_status event_id body.seat_ids SeatState.locked)
          ∷ [])
      ++ publish "reservation.created" (of_reservation r) user.sub ∷ []

  -- How a run of `create` ends.
  pub data Created : Result Reservation → World D R → Type 0 where
    refused : (e : Exception) → Created (err e) w
    rolled_back :
        (offer : Offer) (e : Exception)
        → (locked offer.0.id).0 ≡ ok tt
        → (booking offer).0 ≡ err e
        → Created (err (translated D R e)) (record w {
          store =
              (release R around.release_call offer.0.id body.seat_ids around.id
                (locked offer.0.id).1).1;
        })
    reserved :
        (offer : Offer) (r : Reservation)
        → (check_request D around user.sub body w.db).0 ≡ ok offer
        → (locked offer.0.id).0 ≡ ok tt
        → (booking offer).0 ≡ ok r
        → Created (ok r) (record w {
          db = (booking offer).1;
          store = (locked offer.0.id).1;
          sent = told offer.0.id r;
        })

  abbrev run : Result Reservation × World D R
  run = create D R around user body w

  check_fails :
      (e : Exception) → (check_request D around user.sub body w.db).0 ≡ err e → run ≡ (err e, w)
  unfolding create
  check_fails e h = ground (arith, check_request_reads D around user.sub body w.db)

  lock_fails :
      (offer : Offer) (e : Exception)
      → (check_request D around user.sub body w.db).0 ≡ ok offer
      → (locked offer.0.id).0 ≡ err e
      → run ≡ (err e, w)
  unfolding create
  lock_fails offer e h k =
      let same = check_request_reads D around user.sub body w.db in
      let kept =
        acquire_atomic R around.acquire_call around.lock_ttl_seconds offer.0.id body.seat_ids
          around.id w.store e k in
      ground arith

  book_fails :
      (offer : Offer) (e : Exception)
      → (check_request D around user.sub body w.db).0 ≡ ok offer
      → (locked offer.0.id).0 ≡ ok tt
      → (booking offer).0 ≡ err e
      → run ≡ (
        err (translated D R e),
        record w {
          store =
              (release R around.release_call offer.0.id body.seat_ids around.id
                (locked offer.0.id).1).1;
        },
      )
  unfolding create
  book_fails offer e h k b =
      let same = check_request_reads D around user.sub body w.db in ground arith

  book_returns :
      (offer : Offer) (r : Reservation)
      → (check_request D around user.sub body w.db).0 ≡ ok offer
      → (locked offer.0.id).0 ≡ ok tt
      → (booking offer).0 ≡ ok r
      → run ≡ (
        ok r,
        record w {
          db = (booking offer).1;
          store = (locked offer.0.id).1;
          sent = told offer.0.id r;
        },
      )
  unfolding create
  book_returns offer e h k b =
      let same = check_request_reads D around user.sub body w.db in ground arith

  pub create_cases : Created run.0 run.1
  create_cases = elim (Result-cases (check_request D around user.sub body w.db).0) [
    | inr (e, h) ↦ rw (check_fails e h) (refused e)
    | inl (offer, h) ↦ elim (Result-cases (locked offer.0.id).0) [
      | inr (e, k) ↦ rw (lock_fails offer e h k) (refused e)
      | inl (tt, k) ↦ elim (Result-cases (booking offer).0) [
        | inr (e, b) ↦ rw (book_fails offer e h k b) (rolled_back offer e k b)
        | inl (r, b) ↦ rw (book_returns offer r h k b) (reserved offer r h k b)
      ]
    ]
  ]
