-- ===== src/Booking/Book.antt =====
-- The transaction of `create` in backend/src/reservations.controller.ts keeps the invariant.
use ki_ticket.Base.{
  ℕ, suc, ◌≡◌, ◌⊎◌, refl, ap, ◌∙◌, none, some, List, [], ◌∷◌, arith, In, inl, inr, Option-cases,
}
use ki_ticket.Outcome.{ok}
use ki_ticket.Database.{insert_all, get-insert_all_old, insert_all_cases}
use ki_ticket.Entities.{Reservation, ReservationSeat, PricingCategory, SeatState}
use ki_ticket.World.{Repositories, Db}
use ki_ticket.Pricing.{Prices, price_or_zero}
use ki_ticket.Reservation.{Surroundings, book, seat_rows, new_reservation}
use ki_ticket.Booking.Invariant.{IsConsistent}

-- What a new seat row holds.
abbrev pub NewRow : Surroundings → ℕ → Prices → List ℕ → ReservationSeat → Type 0
NewRow around event_id prices seat_ids s =
    (s.reservation_id ≡ around.id)
    × (s.event_id ≡ event_id)
    × (s.state ≡ SeatState.locked)
    × In s.seat_id seat_ids
    × (s.price ≡ price_or_zero prices s.seat_id)

pub seat_rows-NewRow :
    (around : Surroundings) (event_id : ℕ) (prices : Prices) (n : ℕ) (seat_ids : List ℕ)
    (s : ReservationSeat)
    → In s (seat_rows around event_id prices n seat_ids)
    → NewRow around event_id prices seat_ids s
seat_rows-NewRow around event_id prices n [] s m = elim m [ ]
seat_rows-NewRow around event_id prices n (x ∷ xs) s (inl e) =
    rw e (refl, refl, refl, inl refl, refl)
seat_rows-NewRow around event_id prices n (x ∷ xs) s (inr m) =
    let (a, b, c, d, q) = seat_rows-NewRow around event_id prices (suc n) xs s m in
    (a, b, c, inr d, q)

module _ (D : Repositories) (around : Surroundings) (user_id event_id : ℕ)
    (pricing : List PricingCategory) (prices : Prices) (seat_ids : List ℕ) where
  abbrev rows : List ReservationSeat
  rows = seat_rows around event_id prices 0 seat_ids

  abbrev fresh_reservation : Reservation
  fresh_reservation = new_reservation around user_id event_id pricing prices seat_ids

  -- The tables that a booking that returns has written.
  abbrev pub Written : Db D → Db D → Type 0
  Written db db' =
      (t : D.reservations.Table) × (u : D.reservation_seats.Table) × (D.reservations.save
          db.reservations fresh_reservation
        ≡ some t)
      × (insert_all D.reservation_seats rows db.reservation_seats ≡ some u)
      × (db' ≡ record db { reservations = t; reservation_seats = u })

  pub book_ok :
      (db : Db D) (r : Reservation)
      → (book D around user_id event_id pricing prices seat_ids db).0 ≡ ok r
      → Written db (book D around user_id event_id pricing prices seat_ids db).1
  unfolding book
  book_ok db r h = elim (Option-cases (D.reservations.save db.reservations fresh_reservation)) [
    | inl e ↦ absurd (ground arith)
    | inr (t, e) ↦ elim (Option-cases (insert_all D.reservation_seats rows db.reservation_seats)) [
      | inl q ↦ absurd (ground arith)
      | inr (u, q) ↦ (t, u, e, q, ground arith)
    ]
  ]

  module _ (db : Db D) (t : D.reservations.Table)
      (saved : D.reservations.save db.reservations fresh_reservation ≡ some t) where
    new_there : D.reservations.get t around.id ≡ some fresh_reservation
    new_there =
        ground (arith, D.reservations.get-save db.reservations fresh_reservation t around.id saved)

    old_there :
        (j : ℕ) (x : Reservation)
        → D.reservations.get db.reservations around.id ≡ none
        → D.reservations.get db.reservations j ≡ some x
        → D.reservations.get t j ≡ some x
    old_there j x fresh g =
        ground (arith, D.reservations.get-save db.reservations fresh_reservation t j saved)

    reservation_cases :
        (j : ℕ) (x : Reservation)
        → D.reservations.get t j ≡ some x
        → (D.reservations.get db.reservations j ≡ some x) ⊎ (x ≡ fresh_reservation)
    reservation_cases j x g =
        ground (arith, D.reservations.get-save db.reservations fresh_reservation t j saved)

  -- A booking under an id that no reservation has keeps the invariant.
  pub book-IsConsistent :
      (db : Db D) (r : Reservation)
      → D.reservations.get db.reservations around.id ≡ none
      → IsConsistent D db
      → (book D around user_id event_id pricing prices seat_ids db).0 ≡ ok r
      → IsConsistent D (book D around user_id event_id pricing prices seat_ids db).1
  book-IsConsistent db r fresh c h =
      let (t, u, saved, inserted, q) = book_ok db r h in
      let repo = D.reservation_seats in
      rw q (record {
        held = λ i s g. elim (insert_all_cases repo rows db.reservation_seats u i s inserted g) [
          | inl old ↦
              let (x, gx, ev, ag) = c.held i s old in
              (x, old_there db t saved s.reservation_id x fresh gx, ev, ag)
          | inr new ↦
              let (a, b, st, m, p) = seat_rows-NewRow around event_id prices 0 seat_ids s new in
              (fresh_reservation, ap (D.reservations.get t) a ∙ new_there db t saved, b, rw st tt)
        ];
        sold = λ i k g.
            let (s, old, e, d, b) = c.sold i k g in
            (s, get-insert_all_old repo rows db.reservation_seats u s.id s inserted old, e, d, b);
        ticketed = λ i s g b.
            elim (insert_all_cases repo rows db.reservation_seats u i s inserted g) [
              | inl old ↦ c.ticketed i s old b
              | inr new ↦
                  absurd (cc (b, (seat_rows-NewRow around event_id prices 0 seat_ids s new).2))
            ];
        paid = λ i x g e. elim (reservation_cases db t saved i x g) [
          | inl old ↦ c.paid i x old e
          | inr new ↦ absurd (cc (e, ap (λ (y : Reservation). y.state) new))
        ];
        confirmed = λ i p g e.
            let (x, gx, st) = c.confirmed i p g e in
            (x, old_there db t saved p.reservation_id x fresh gx, st);
      })
