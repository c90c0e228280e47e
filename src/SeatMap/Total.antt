-- ===== src/SeatMap/Total.antt =====
-- The total that the page of an event shows, against the amount of the reservation.
use ki_ticket.Base.{
  ℕ, ◌≡◌, refl, sym, ap, ◌∙◌, subst, arith, ◌&&◌, some, List, [], ◌∷◌, map, has, In, In-map, In-has,
  Distinct, Option-cases, inl, inr, ◌==◌, ==_iff, some_injective,
}
use ki_ticket.Outcome.{ok, ok_injective}
use ki_ticket.Redis.{Redis}
use ki_ticket.Entities.{Event, Sector, Seat, PricingCategory, Reservation, ReservationSeat}
use ki_ticket.World.{Repositories, Db, World, AuthenticatedUser}
use ki_ticket.Pricing.{category_for, price_or_zero}
use ki_ticket.Reservation.{Surroundings, CreateReservation, create, sector_ids}
use ki_ticket.Booking.Reserved.{Reserved}
use ki_ticket.Booking.Ends.{create-Reserved}
use ki_ticket.Events.{prices_of}
use ki_ticket.EventPage.{item, EventDetail, detail, detail_of, seats_in, states_of, amount_of}
use ki_ticket.SeatMap.{chosen, total_of}
use ki_ticket.SeatMap.Sums.{seat_ids, Priced, total_sum}

module _ (D : Repositories) (R : Redis) (around : Surroundings) (user : AuthenticatedUser)
    (body : CreateReservation) (w : World D R) where
  -- The catalog of a page that was read earlier is that of the reservation.
  pub record SameCatalog (db : Db D) : Type 0 where
    pub events : db.events ≡ w.db.events
    pub sectors : db.sectors ≡ w.db.sectors
    pub seats : db.seats ≡ w.db.seats
    pub prices : db.prices ≡ w.db.prices

  -- How a detail that returns has run.
  detail_ok :
      (now : ℕ) (db : Db D) (d : EventDetail)
      → (detail D now body.event_id db).0 ≡ ok d
      → (event : Event) × (D.events.get db.events body.event_id ≡ some event)
        × (d.inventory
            ≡ map
                (item (states_of D body.event_id db) (prices_of D body.event_id db))
                (seats_in D db (sector_ids D db event)))
  unfolding detail
  detail_ok now db d h =
      elim (Option-cases
        (D.events.find_one_by db.events (λ e. e.id == body.event_id && e.published))) [
          | inl n ↦ absurd (ground arith)
          | inr (event, e) ↦
              elim (Option-cases (D.venues.find_one_by db.venues (λ v. v.id == event.venue_id))) [
                | inl n ↦ absurd (ground arith)
                | inr (venue, v) ↦
                    let f =
                      D.events.found db.events (λ e. e.id == body.event_id && e.published) event
                        e in
                    let run : (detail D now body.event_id db).0
                        ≡ ok (
                            detail_of now event venue
                              (D.sectors.find_by db.sectors (λ s. s.venue_id == event.venue_id))
                              (seats_in D db (sector_ids D db event)) (states_of D body.event_id db)
                              (prices_of D body.event_id db)) =
                      ground arith in
                    let same = ok_injective (sym h ∙ run) in
                    let named : event.id ≡ body.event_id =
                      ground (arith, ==_iff event.id body.event_id) in
                    (
                      event,
                      ap (D.events.get db.events) (sym named) ∙ f.0,
                      ap (λ (x : EventDetail). x.inventory) same,
                    )
              ]
        ]

  seats-Distinct :
      (db : Db D) (sectors : List ℕ) → Distinct (map (λ (s : Seat). s.id) (seats_in D db sectors))
  seats-Distinct db [] = tt
  seats-Distinct db (s ∷ rest) = D.seats.distinct db.seats (λ x. has x.sector_id (s ∷ rest))

  seats-In :
      (db : Db D) (sectors : List ℕ) (x : ℕ) (seat : Seat)
      → D.seats.get db.seats x ≡ some seat
      → In seat.sector_id sectors
      → In seat (seats_in D db sectors)
  seats-In db [] x seat g m = absurd m
  seats-In db (s ∷ rest) x seat g m =
      D.seats.complete db.seats (λ x. has x.sector_id (s ∷ rest)) x seat g
        (In-has seat.sector_id (s ∷ rest) m)

  items-Distinct :
      (states : List ReservationSeat) (pricing : List PricingCategory) (seats : List Seat)
      → Distinct (map (λ (s : Seat). s.id) seats)
      → Distinct (seat_ids (map (item states pricing) seats))
  unfolding item
  items-Distinct states pricing seats d = subst Distinct (sym (items_ids seats)) d
    where
      items_ids :
          (xs : List Seat) → seat_ids (map (item states pricing) xs) ≡ map (λ (s : Seat). s.id) xs
      items_ids [] = refl
      items_ids (x ∷ xs) = ap (λ l. x.id ∷ l) (items_ids xs)

  module _ (db : Db D) (same : SameCatalog db) (r : Reservation) (w' : World D R)
      (res : Reserved D R around user body w r w') where
    same_event :
        (event : Event) → D.events.get db.events body.event_id ≡ some event → event ≡ res.event
    same_event event g = some_injective (
        sym g
        ∙ ap (λ t. D.events.get t body.event_id) same.events
        ∙ ap (D.events.get w.db.events) (sym res.offered.named)
        ∙ res.offered.there)

    same_pricing : prices_of D body.event_id db ≡ res.pricing
    same_pricing = rw (same.prices, ← res.offered.named) (sym res.offered.priced)

    -- The seat is in the inventory, at its price.
    priced :
        (x : ℕ)
        → In x body.seat_ids
        → Priced
            (map
              (item (states_of D body.event_id db) (prices_of D body.event_id db))
              (seats_in D db (sector_ids D db res.event)))
            (price_or_zero res.prices)
            x
    unfolding item
    priced x m =
        let (seat, sector, c, gs, gsec, v, cat, p) = res.for_sale x m in
        let there : D.sectors.get db.sectors seat.sector_id ≡ some sector = rw same.sectors gsec in
        let listed =
          D.sectors.complete db.sectors (λ s. s.venue_id == res.event.venue_id) seat.sector_id
            sector there (rw v ((==_iff res.event.venue_id res.event.venue_id).1 refl)) in
        let inside : In seat.sector_id (sector_ids D db res.event) =
          subst (λ y. In y (sector_ids D db res.event))
            (D.sectors.key-get db.sectors seat.sector_id sector there)
            (In-map (λ (s : Sector). s.id) sector
              (D.sectors.find_by db.sectors (λ s. s.venue_id == res.event.venue_id)) listed) in
        let seat_there : D.seats.get db.seats x ≡ some seat = rw same.seats gs in
        (
          item (states_of D body.event_id db) (prices_of D body.event_id db) seat,
          In-map (item (states_of D body.event_id db) (prices_of D body.event_id db)) seat
              (seats_in D db (sector_ids D db res.event))
              (seats-In db (sector_ids D db res.event) x seat seat_there inside),
          D.seats.key-get db.seats x seat seat_there,
          ap (λ ps. amount_of (category_for ps seat)) same_pricing ∙ ap amount_of cat ∙ sym p,
        )

  -- The customer pays the total that the page shows: if a reservation is made of the selected
  -- seats, and the events, sectors, seats and prices are still those that the page of the event was
  -- read from, then the total of the chosen seats on the page is the amount of the reservation.
  pub create-total_of :
      (now : ℕ) (db : Db D) (d : EventDetail) (r : Reservation)
      → (detail D now body.event_id db).0 ≡ ok d
      → SameCatalog db
      → (create D R around user body w).0 ≡ ok r
      → total_of (chosen d.inventory body.seat_ids) ≡ r.total_amount
  create-total_of now db d r read same reserved =
      let res = create-Reserved D R around user body w r reserved in
      let (event, g, inventory) = detail_ok now db d read in
      let w' = (create D R around user body w).1 in
      let which = same_event db same r w' res event g in
      let shown =
        inventory
        ∙ ap
            (λ (e : Event).
              map (item (states_of D body.event_id db) (prices_of D body.event_id db))
                (seats_in D db (sector_ids D db e)))
            which in
      rw shown (
        total_sum _ (price_or_zero res.prices) body.seat_ids
          (items-Distinct (states_of D body.event_id db) (prices_of D body.event_id db)
            (seats_in D db (sector_ids D db res.event))
            (seats-Distinct db (sector_ids D db res.event)))
          res.distinct (priced db same r w' res)
        ∙ sym res.result.5)
