-- ===== src/Booking/Offer.antt =====
-- What `create` of backend/src/reservations.controller.ts has checked before it takes the locks.
use ki_ticket.Base.{
  ℕ, ◌<◌, ◌≡◌, refl, sym, ap, subst, ◌∙◌, true, false, ◌&&◌, some, List, [], ◌∷◌, arith, In,
  Distinct, length, has, has-In, pigeonhole, length-map, In-of_map, inl, inr, Option-cases, ==_iff,
  ◌==◌, leb,
}
use ki_ticket.Outcome.{Result, ok, Result-cases, ok_injective}
use ki_ticket.Entities.{Event, PricingCategory, Seat, Sector}
use ki_ticket.World.{Repositories, Db}
use ki_ticket.WaitingRoom.{assert_admission}
use ki_ticket.WaitingRoom.Admission.{admission_reads}
use ki_ticket.Pricing.{Prices, price_seats, category_for, price_or_zero}
use ki_ticket.Pricing.Lookup.{ids, price_of-price_seats}
use ki_ticket.Reservation.{
  Surroundings, CreateReservation, check_request, bookable_event, selected_seats, pricing_of,
  venue_seats, sector_ids,
}

module _ (D : Repositories) (around : Surroundings) (user_id : ℕ) (body : CreateReservation)
    (db : Db D) where
  -- What a request that passes the checks has met.
  pub record Offered (event : Event) (pricing : List PricingCategory) (prices : Prices)
      : Type 0 where
    pub admitted :
        (assert_admission D around.waiting_room_required around.admission_at body.event_id user_id
          body.admission_token db).0
        ≡ ok tt
    pub there : D.events.get db.events event.id ≡ some event
    pub named : event.id ≡ body.event_id
    pub published : event.published ≡ true
    pub upcoming : around.event_at < event.starts_at
    pub priced : pricing ≡ D.prices.find_by db.prices (λ p. p.event_id == event.id)
    pub in_venue :
        length (venue_seats D db (sector_ids D db event) body.seat_ids) ≡ length body.seat_ids
    pub prices_found :
        price_seats pricing (venue_seats D db (sector_ids D db event) body.seat_ids) ≡ ok prices

  abbrev categories : Event → List PricingCategory
  categories event = D.prices.find_by db.prices (λ p. p.event_id == event.id)

  abbrev choice : Event → List Seat
  choice event = venue_seats D db (sector_ids D db event) body.seat_ids

  -- The run of the checks for the event that the table holds.
  offer_run :
      (found : Event) (event : Event) (pricing : List PricingCategory) (prices : Prices)
      → (assert_admission D around.waiting_room_required around.admission_at body.event_id user_id
          body.admission_token db)
        ≡ (ok tt, db)
      → (D.events.find_one_by db.events (λ e. e.id == body.event_id && e.published) ≡ some found)
      → (check_request D around user_id body db).0 ≡ ok (event, pricing, prices)
      → (leb found.starts_at around.event_at ≡ false)
        × ((length (choice found) == length body.seat_ids) ≡ true)
        × ((ps : Prices) × (price_seats (categories found) (choice found) ≡ ok ps)
            × ((check_request D around user_id body db).0 ≡ ok (found, categories found, ps)))
  unfolding check_request bookable_event selected_seats pricing_of
  offer_run found event pricing prices passed h ok_all =
      elim (Result-cases (price_seats (categories found) (choice found))) [
        | inr (x, q) ↦ absurd (ground arith)
        | inl (ps, q) ↦ (ground arith, ground arith, (ps, q, ground arith))
      ]

  Offered-for :
      (event found : Event) (pricing : List PricingCategory) (prices : Prices)
      → (assert_admission D around.waiting_room_required around.admission_at body.event_id user_id
          body.admission_token db)
        ≡ (ok tt, db)
      → (D.events.find_one_by db.events (λ e. e.id == body.event_id && e.published) ≡ some found)
      → (check_request D around user_id body db).0 ≡ ok (event, pricing, prices)
      → Offered event pricing prices
  Offered-for event found pricing prices passed h ok_all =
      let (soon, long, (ps, q, same)) = offer_run found event pricing prices passed h ok_all in
      let f = D.events.found db.events (λ e. e.id == body.event_id && e.published) found h in
      let offer : Offered found (categories found) ps = record {
        admitted = ap (λ (x : Result (Unit {0}) × Db D). x.0) passed;
        there = f.0;
        named = ground arith;
        published = ground arith;
        upcoming = ground arith;
        priced = refl;
        in_venue = (==_iff (length (choice found)) (length body.seat_ids)).0 long;
        prices_found = q;
      } in
      subst (λ (o : Event × List PricingCategory × Prices). Offered o.0 o.1 o.2)
        (ok_injective (sym same ∙ ok_all)) offer

  pub check_request_ok :
      (event : Event) (pricing : List PricingCategory) (prices : Prices)
      → (check_request D around user_id body db).0 ≡ ok (event, pricing, prices)
      → Offered event pricing prices
  unfolding check_request bookable_event selected_seats pricing_of
  check_request_ok event pricing prices h =
      let same =
        admission_reads D around.admission_at body.event_id user_id around.waiting_room_required
          body.admission_token db in
      elim (Option-cases
        (D.events.find_one_by db.events (λ e. e.id == body.event_id && e.published))) [
          | inl e ↦ absurd (ground arith)
          | inr (found, e) ↦ Offered-for event found pricing prices (ground arith) e h
        ]

  module _ (event : Event) (pricing : List PricingCategory) (prices : Prices)
      (offer : Offered event pricing prices) where
    -- A seat of the event's venue, with its category and its price.
    abbrev pub ForSale : ℕ → Type 0
    ForSale x =
        (seat : Seat) × (sector : Sector) × (c : PricingCategory) × (D.seats.get db.seats x
          ≡ some seat)
        × (D.sectors.get db.sectors seat.sector_id ≡ some sector)
        × (sector.venue_id ≡ event.venue_id)
        × (category_for pricing seat ≡ some c)
        × (price_or_zero prices x ≡ c.price)

    sector_there :
        (i : ℕ)
        → In i (sector_ids D db event)
        → (sector : Sector) × (D.sectors.get db.sectors i ≡ some sector)
          × (sector.venue_id ≡ event.venue_id)
    sector_there i m =
        let (s, k, e) =
          In-of_map (λ (s : Sector). s.id) i
            (D.sectors.find_by db.sectors (λ s. s.venue_id == event.venue_id)) m in
        let f = D.sectors.listed db.sectors (λ s. s.venue_id == event.venue_id) s k in
        (s, ap (D.sectors.get db.sectors) e ∙ f.0, (==_iff s.venue_id event.venue_id).0 f.1)

    choice_listed :
        (sectors : List ℕ) (seat : Seat)
        → In seat (venue_seats D db sectors body.seat_ids)
        → (D.seats.get db.seats seat.id ≡ some seat)
          × In seat.id body.seat_ids
          × In seat.sector_id sectors
    choice_listed [] seat m = absurd m
    choice_listed (s ∷ rest) seat m =
        let f =
          D.seats.listed db.seats (λ x. has x.id body.seat_ids && has x.sector_id (s ∷ rest)) seat
            m in
        (
          f.0,
          has-In seat.id body.seat_ids (ground arith),
          has-In seat.sector_id (s ∷ rest) (ground arith),
        )

    choice-Distinct : (sectors : List ℕ) → Distinct (ids (venue_seats D db sectors body.seat_ids))
    choice-Distinct [] = tt
    choice-Distinct (s ∷ rest) =
        D.seats.distinct db.seats (λ x. has x.id body.seat_ids && has x.sector_id (s ∷ rest))

    pub seats-ForSale : (x : ℕ) → Distinct body.seat_ids → In x body.seat_ids → ForSale x
    seats-ForSale x d m =
        let inside : (y : ℕ) → In y (ids (choice event)) → In y body.seat_ids = λ y k.
          let (seat, q, e) = In-of_map (λ (s : Seat). s.id) y (choice event) k in
          rw e (choice_listed (sector_ids D db event) seat q).1 in
        let chosen : In x (ids (choice event)) =
          pigeonhole (ids (choice event)) body.seat_ids x (choice-Distinct (sector_ids D db event))
            inside (omega (arith, length-map (λ (s : Seat). s.id) (choice event), offer.in_venue))
            m in
        let (seat, k, e) = In-of_map (λ (s : Seat). s.id) x (choice event) chosen in
        let (g, a, b) = choice_listed (sector_ids D db event) seat k in
        let (sector, gs, v) = sector_there seat.sector_id b in
        let (c, h, p) =
          price_of-price_seats pricing (choice event) prices seat offer.prices_found
            (choice-Distinct (sector_ids D db event)) k in
        rw e (seat, sector, c, g, gs, v, h, ground arith)
