-- ===== src/EventPage.antt =====
-- `detail` and `analytics` of `EventsController` in backend/src/catalog.controller.ts.
pub mod Inventory
use ki_ticket.Base.{
  ℕ, ◌+◌, ◌-◌, String, Bool, true, false, not, ◌&&◌, Option, none, some, List, [], ◌∷◌, map, length,
  has, select, ◌==◌, leb, if◌then◌else◌,
}
use ki_ticket.Outcome.{
  Exec, Result, ok, err, not_found, entity_not_found, require, pure, gets, ◌>>=◌, ◌>>◌,
}
use ki_ticket.Entities.{
  Event, Venue, Sector, Seat, PricingCategory, Reservation, ReservationSeat, Payment, SeatState,
  ReservationState, PaymentState,
}
use ki_ticket.World.{Repositories, Db, AuthenticatedUser}
use ki_ticket.Pricing.{category_for}
use ki_ticket.Reservation.{sector_ids}
use ki_ticket.Payment.{is_success}
use ki_ticket.Events.{owned_event, prices_of}

-- An entry of `inventory`.
pub record Item : Type 0 where
  pub seat_id : ℕ
  pub sector_id : ℕ
  pub row : String
  pub number : ℕ
  pub accessible : Bool
  pub state : SeatState
  pub price : ℕ
  pub currency : String

-- `stateBySeat.get(seatId)`: of two entries with one key the later counts.
abbrev pub state_of : List ReservationSeat → ℕ → Option SeatState
state_of [] seat_id = none
state_of (s ∷ rest) seat_id = elim (state_of rest seat_id) [
  | some q ↦ some q
  | none ↦ if s.seat_id == seat_id then some s.state else none
]

abbrev pub or_available : Option SeatState → SeatState
or_available none = SeatState.available
or_available (some s) = s

-- `Number(price?.price ?? 0)` and `price?.currency ?? 'IRR'`
abbrev pub amount_of : Option PricingCategory → ℕ
amount_of none = 0
amount_of (some p) = p.price

abbrev pub currency_of : Option PricingCategory → String
currency_of none = "IRR"
currency_of (some p) = p.currency

unfoldable pub item : List ReservationSeat → List PricingCategory → Seat → Item
item states pricing seat = record {
  seat_id = seat.id;
  sector_id = seat.sector_id;
  row = seat.row;
  number = seat.number;
  accessible = seat.accessible;
  state = or_available (state_of states seat.id);
  price = amount_of (category_for pricing seat);
  currency = currency_of (category_for pricing seat);
}

abbrev pub is_available : SeatState → Bool
is_available SeatState.available = true
is_available _ = false

pub record EventDetail : Type 0 where
  pub event : Event
  pub venue : Venue
  pub sectors : List Sector
  pub pricing : List PricingCategory
  pub bookable : Bool
  pub availability : ℕ
  pub inventory : List Item

-- The end of `detail`, from the rows that it has read.
abbrev pub detail_of :
    ℕ
    → Event
    → Venue
    → List Sector
    → List Seat
    → List ReservationSeat
    → List PricingCategory
    → EventDetail
detail_of now event venue sectors seats states pricing =
    let inventory = map (item states pricing) seats in
    let bookable = not (leb event.starts_at now) in
    record {
      event = event;
      venue = venue;
      sectors = sectors;
      pricing = pricing;
      bookable = bookable;
      availability =
          if bookable then length (select (λ (i : Item). is_available i.state) inventory) else 0;
      inventory = inventory;
    }

pub record Analytics : Type 0 where
  pub reservations : ℕ
  pub confirmed_reservations : ℕ
  pub booked_seats : ℕ
  pub remaining_seats : ℕ
  pub capacity : ℕ
  pub revenue : ℕ
  pub currency : String

abbrev pub is_confirmed : Reservation → Bool
is_confirmed r = elim r.state [ ReservationState.confirmed ↦ true | _ ↦ false ]

abbrev pub is_booked : SeatState → Bool
is_booked SeatState.booked = true
is_booked _ = false

abbrev pub sum_amounts : ℕ → List Payment → ℕ
sum_amounts sum [] = sum
sum_amounts sum (p ∷ rest) = sum_amounts (sum + p.amount) rest

abbrev pub paid_currency : List Payment → String
paid_currency [] = "IRR"
paid_currency (p ∷ rest) = p.currency

module _ (D : Repositories) where
  -- `sectors.length ? await this.seats.findBy(…) : []`
  abbrev pub seats_in : Db D → List ℕ → List Seat
  seats_in db [] = []
  seats_in db (s ∷ rest) = D.seats.find_by db.seats (λ x. has x.sector_id (s ∷ rest))

  abbrev pub states_of : ℕ → Db D → List ReservationSeat
  states_of event_id db =
      D.reservation_seats.find_by db.reservation_seats (λ s. s.event_id == event_id)

  -- The message of the source is in Persian.
  unfoldable pub detail : ℕ → ℕ → Exec (Db D) EventDetail
  detail now id = do
    found ← gets (λ db. D.events.find_one_by db.events (λ e. e.id == id && e.published))
    event ← require found (not_found "Event not found")
    place ← gets (λ db. D.venues.find_one_by db.venues (λ v. v.id == event.venue_id))
    venue ← require place entity_not_found
    sectors ← gets (λ db. D.sectors.find_by db.sectors (λ s. s.venue_id == event.venue_id))
    seats ← gets (λ db. seats_in db (map (λ (s : Sector). s.id) sectors))
    states ← gets (states_of id)
    pricing ← gets (prices_of D id)
    pure (detail_of now event venue sectors seats states pricing)

  -- `confirmed.length ? await this.payments.findBy(…) : []`
  abbrev pub payments_of : Db D → List ℕ → List Payment
  payments_of db [] = []
  payments_of db (r ∷ rest) =
      D.payments.find_by db.payments (λ p. has p.reservation_id (r ∷ rest) && is_success p.state)

  unfoldable pub analytics : AuthenticatedUser → ℕ → Exec (Db D) Analytics
  unfolding owned_event
  analytics user id = do
    owned_event D id user
    reservations ← gets (λ db. D.reservations.find_by db.reservations (λ r. r.event_id == id))
    let confirmed = select is_confirmed reservations
    paid ← gets (λ db. payments_of db (map (λ (r : Reservation). r.id) confirmed))
    booked ← gets (λ db.
        D.reservation_seats.find_by db.reservation_seats
          (λ s. s.event_id == id && is_booked s.state))
    found ← gets (λ db. D.events.find_one_by db.events (λ e. e.id == id))
    event ← require found entity_not_found
    seats ← gets (λ db. seats_in db (sector_ids D db event))
    pure (record {
      reservations = length reservations;
      confirmed_reservations = length confirmed;
      booked_seats = length booked;
      remaining_seats = length seats - length booked;
      capacity = length seats;
      revenue = sum_amounts 0 paid;
      currency = paid_currency paid;
    })
