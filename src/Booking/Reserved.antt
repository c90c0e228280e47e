-- ===== src/Booking/Reserved.antt =====
-- What a run of `create` of backend/src/reservations.controller.ts has done when it returns, and
-- what is left of it when it throws.
use ki_ticket.Base.{
  ℕ, suc, ◌+◌, ◌≡◌, refl, sym, ap, ◌∙◌, true, some, List, [], ◌∷◌, map, arith, In, In-has, Distinct,
  inl, inr, ==_iff, ◌==◌, ◌&&◌, has, is_empty,
}
use ki_ticket.Outcome.{ok, ok_injective}
use ki_ticket.Database.{get-insert_all_new}
use ki_ticket.Redis.{Redis}
use ki_ticket.Lock.{ttl_ms, acquire}
use ki_ticket.Lock.Atomicity.{acquire_ok_iff, acquire_ok}
use ki_ticket.Entities.{
  Event, PricingCategory, Reservation, ReservationSeat, SeatState, ReservationState,
}
use ki_ticket.World.{Repositories, Db, World, AuthenticatedUser}
use ki_ticket.Pricing.{Prices, price_or_zero}
use ki_ticket.Pricing.Lookup.{sum, total_from_lem}
use ki_ticket.Reservation.{
  Surroundings, CreateReservation, book, check_request, new_reservation, seat_rows, seat_row,
}
use ki_ticket.Booking.Book.{book_ok}
use ki_ticket.Booking.Offer.{Offered, ForSale, check_request_ok, seats-ForSale}
use ki_ticket.Booking.Create.{told, booking, locked}

-- The new row of a seat.
pub row_of :
    (around : Surroundings) (event_id : ℕ) (prices : Prices) (n : ℕ) (seat_ids : List ℕ) (x : ℕ)
    → In x seat_ids
    → (m : ℕ) × In
        (seat_row around event_id prices m x)
        (seat_rows around event_id prices n seat_ids)
row_of around event_id prices n (y ∷ ys) x (inl e) = rw e (n, inl refl)
row_of around event_id prices n (y ∷ ys) x (inr k) =
    let (m, j) = row_of around event_id prices (suc n) ys x k in (m, inr j)
row_of around event_id prices n [] x k = absurd k

some_row :
    (rows : List ReservationSeat) (s : ReservationSeat) → In s rows → is_empty rows ≡ true → ⊥
some_row [] s m h = m
some_row (r ∷ rows) s m h = cc

module _ (D : Repositories) (around : Surroundings) (user_id event_id : ℕ)
    (pricing : List PricingCategory) (prices : Prices) (seat_ids : List ℕ) (db : Db D)
    (r : Reservation)
    (returns : (book D around user_id event_id pricing prices seat_ids db).0 ≡ ok r) where
  pub booked_reservation : r ≡ new_reservation around user_id event_id pricing prices seat_ids
  unfolding book
  booked_reservation =
      let (t, u, saved, inserted, after) =
        book_ok D around user_id event_id pricing prices seat_ids db r returns in
      ok_injective (sym returns ∙ ground arith)

  empty_occupied :
      is_empty (
        D.reservation_seats.find_by db.reservation_seats
          (λ s. s.event_id == event_id && has s.seat_id seat_ids))
      ≡ true
  unfolding book
  empty_occupied = ground arith

  -- No row of the event had one of the seats.
  pub vacant :
      (i : ℕ) (s : ReservationSeat)
      → D.reservation_seats.get db.reservation_seats i ≡ some s
      → s.event_id ≡ event_id
      → In s.seat_id seat_ids
      → ⊥
  vacant i s g e m = absurd (
      some_row
        (D.reservation_seats.find_by db.reservation_seats
          (λ s. s.event_id == event_id && has s.seat_id seat_ids))
        s
        (D.reservation_seats.complete db.reservation_seats
          (λ s. s.event_id == event_id && has s.seat_id seat_ids) i s g
          (ground (arith, ==_iff s.event_id event_id, In-has s.seat_id seat_ids m)))
        empty_occupied)

-- The sum of the seats' prices.
abbrev pub cost : Prices → List ℕ → ℕ
cost prices seat_ids = sum (map (price_or_zero prices) seat_ids)

module _ (D : Repositories) (R : Redis) (around : Surroundings) (user : AuthenticatedUser)
    (body : CreateReservation) (w : World D R) where
  -- After a run of `create` that returned `r`:
  pub record Reserved (r : Reservation) (w' : World D R) : Type 0 where
    pub event : Event
    pub pricing : List PricingCategory
    pub prices : Prices
    -- the request passed the checks,
    pub offered : Offered D around user.sub body w.db event pricing prices
    -- no seat is named twice, each is for sale, and each has the price of its category,
    pub distinct : Distinct body.seat_ids
    pub for_sale :
        (x : ℕ)
        → In x body.seat_ids
        → ForSale D around user.sub body w.db event pricing prices offered x
    -- no seat had a row for the event before,
    pub was_vacant :
        (i : ℕ) (s : ReservationSeat)
        → D.reservation_seats.get w.db.reservation_seats i ≡ some s
        → s.event_id ≡ event.id
        → In s.seat_id body.seat_ids
        → ⊥
    -- the reservation is stored, pending, for its user, at the sum of the prices,
    pub stored : D.reservations.get w'.db.reservations around.id ≡ some r
    pub result :
        (r.id ≡ around.id)
        × (r.user_id ≡ user.sub)
        × (r.event_id ≡ event.id)
        × (r.state ≡ ReservationState.pending)
        × (r.expires_at ≡ around.reserved_at + ttl_ms around.lock_ttl_seconds)
        × (r.total_amount ≡ cost prices body.seat_ids)
    -- each seat has its row, locked by the reservation,
    pub rows :
        (x : ℕ)
        → In x body.seat_ids
        → (s : ReservationSeat) × (D.reservation_seats.get w'.db.reservation_seats s.id ≡ some s)
          × (s.reservation_id ≡ r.id)
          × (s.event_id ≡ event.id)
          × (s.seat_id ≡ x)
          × (s.state ≡ SeatState.locked)
          × (s.price ≡ price_or_zero prices x)
    -- and the two messages went out.
    pub announced : w'.sent ≡ told D R around user body w event.id r

  pub Reserved-facts :
      (offer : Event × List PricingCategory × Prices) (r : Reservation)
      → (check_request D around user.sub body w.db).0 ≡ ok offer
      → (acquire R around.acquire_call around.lock_ttl_seconds offer.0.id body.seat_ids around.id
          w.store).0
        ≡ ok tt
      → (booking D R around user body w offer).0 ≡ ok r
      → Reserved r (record w {
        db = (booking D R around user body w offer).1;
        store = (locked D R around user body w offer.0.id).1;
        sent = told D R around user body w offer.0.id r;
      })
  Reserved-facts (event, pricing, prices) r checked taken booked =
      let offered = check_request_ok D around user.sub body w.db event pricing prices checked in
      let (t, u, saved, inserted, after) =
        book_ok D around user.sub event.id pricing prices body.seat_ids w.db r booked in
      let same =
        booked_reservation D around user.sub event.id pricing prices body.seat_ids w.db r booked in
      let once =
        ((acquire_ok_iff R around.acquire_call around.lock_ttl_seconds event.id body.seat_ids
            around.id w.store
            (acquire_ok R around.acquire_call around.lock_ttl_seconds event.id body.seat_ids
              around.id w.store taken).2).0
          taken).0 in
      record {
        event = event;
        pricing = pricing;
        prices = prices;
        offered = offered;
        distinct = once;
        for_sale =
            λ x m. seats-ForSale D around user.sub body w.db event pricing prices offered x once m;
        was_vacant = vacant D around user.sub event.id pricing prices body.seat_ids w.db r booked;
        stored = rw after (
            ground (
              arith,
              D.reservations.get-save w.db.reservations
                  (new_reservation around user.sub event.id pricing prices body.seat_ids) t
                  around.id saved,
            ));
        result =
            rw same
              (refl, refl, refl, refl, refl, omega (arith, total_from_lem 0 prices body.seat_ids));
        rows = λ x m.
            let (n, k) = row_of around event.id prices 0 body.seat_ids x m in
            (
              seat_row around event.id prices n x,
              rw after (
                  get-insert_all_new D.reservation_seats
                    (seat_rows around event.id prices 0 body.seat_ids) w.db.reservation_seats u
                    (seat_row around event.id prices n x) inserted k),
              ap (λ (y : Reservation). y.id) (sym same),
              refl,
              refl,
              refl,
              refl,
            );
        announced = refl;
      }
