-- ===== src/Events.antt =====
-- `EventsController` of backend/src/catalog.controller.ts: the events of an organizer and their
-- prices, the page of an event, and its sales.
pub mod Times
pub mod Edit
use ki_ticket.Base.{
  ℕ, zero, suc, ◌+◌, ◌-◌, String, Bool, true, false, not, ◌&&◌, ◌||◌, Option, none, some, List, [],
  ◌∷◌, map, length, is_empty, has, find, select, ◌==◌, leb, ltb, if◌then◌else◌,
}
use ki_ticket.Outcome.{
  Exception, Exec, Result, ok, err, bad_request, forbidden, not_found, entity_not_found,
  duplicate_key, raise_if, require, pure, lift, gets, ◌>>=◌, ◌>>◌,
}
use ki_ticket.Entities.{
  Event, Venue, Sector, Seat, PricingCategory, Reservation, ReservationSeat, Payment, SeatState,
  ReservationState, PaymentState, is_admin, same_number,
}
use ki_ticket.World.{Repositories, Db, AuthenticatedUser}
use ki_ticket.Pricing.{category_for, first_currency}
use ki_ticket.Reservation.{sector_ids}

-- `validateEventTimes` at an instant. A date whose time is NaN is `none`; `ends_at` is absent as `none`.
abbrev pub ends_early : Option (Option ℕ) → ℕ → Bool
ends_early none starts_at = false
ends_early (some none) starts_at = true
ends_early (some (some t)) starts_at = leb t starts_at

unfoldable pub validate_event_times : ℕ → Option ℕ → Option (Option ℕ) → Bool → Result (Unit {0})
validate_event_times now none ends_at require_future = err (bad_request "Event times are invalid")
validate_event_times now (some starts_at) ends_at require_future =
    if (require_future && leb starts_at now) || ends_early ends_at starts_at
    then err (bad_request "Event times are invalid")
    else ok tt

-- `CreateEventDto`, its dates parsed.
pub record CreateEvent : Type 0 where
  pub venue_id : ℕ
  pub title : String
  pub description : String
  pub genre : String
  pub city : String
  pub tags : Option (List String)
  pub starts_at : Option ℕ
  pub ends_at : Option (Option ℕ)

abbrev pub date_of : Option (Option ℕ) → Option ℕ
date_of none = none
date_of (some t) = t

-- `UpdateEventDto`, its dates parsed.
pub record UpdateEvent : Type 0 where
  pub title : Option String
  pub description : Option String
  pub genre : Option String
  pub city : Option String
  pub tags : Option (List String)
  pub starts_at : Option (Option ℕ)
  pub ends_at : Option (Option ℕ)

abbrev pub given {ℓ} : {A : Type ℓ} → Option A → A → A
given none old = old
given (some new) old = new

abbrev pub is_given {ℓ} : {A : Type ℓ} → Option A → Bool
is_given none = false
is_given (some new) = true

abbrev pub old_end : Option ℕ → Option (Option ℕ)
old_end none = none
old_end (some t) = some (some t)

-- `body.startsAt ? new Date(body.startsAt) : event.startsAt`, and the same of the end.
abbrev pub next_start : UpdateEvent → Event → Option ℕ
next_start body event = given body.starts_at (some event.starts_at)

abbrev pub next_end : UpdateEvent → Event → Option (Option ℕ)
next_end body event = elim body.ends_at [ some t ↦ some t | none ↦ old_end event.ends_at ]

-- `Object.assign(event, body, …)`
abbrev pub assigned : UpdateEvent → Event → ℕ → Event
assigned body event starts_at = record event {
  title = given body.title event.title;
  description = given body.description event.description;
  genre = given body.genre event.genre;
  city = given body.city event.city;
  tags = given body.tags event.tags;
  starts_at = starts_at;
  ends_at = date_of (next_end body event);
}

-- `CreatePricingDto`
pub record CreatePricing : Type 0 where
  pub sector_id : Option ℕ
  pub name : String
  pub price : ℕ
  pub currency : Option String

-- `body.tags ?? []`
abbrev pub tags_or_none : Option (List String) → List String
tags_or_none none = []
tags_or_none (some tags) = tags

abbrev pub currency_or_default : Option String → String
currency_or_default none = "IRR"
currency_or_default (some c) = c

abbrev pub new_event : ℕ → ℕ → CreateEvent → ℕ → Event
new_event id organizer_id body starts_at = record {
  id = id;
  organizer_id = organizer_id;
  venue_id = body.venue_id;
  title = body.title;
  description = body.description;
  genre = body.genre;
  city = body.city;
  tags = tags_or_none body.tags;
  starts_at = starts_at;
  ends_at = date_of body.ends_at;
  published = false;
}

abbrev pub new_pricing : ℕ → ℕ → CreatePricing → PricingCategory
new_pricing id event_id body = record {
  id = id;
  event_id = event_id;
  sector_id = body.sector_id;
  name = body.name;
  price = body.price;
  currency = currency_or_default body.currency;
}

module _ (D : Repositories) where
  abbrev pub insert_event : Event → Exec (Db D) Event
  insert_event e db = elim (D.events.insert db.events e) [
    | none ↦ (err duplicate_key, db)
    | some t ↦ (ok e, record db { events = t })
  ]

  abbrev pub save_event : Event → Exec (Db D) Event
  save_event e db = elim (D.events.save db.events e) [
    | none ↦ (err duplicate_key, db)
    | some t ↦ (ok e, record db { events = t })
  ]

  abbrev pub insert_price : PricingCategory → Exec (Db D) PricingCategory
  insert_price p db = elim (D.prices.insert db.prices p) [
    | none ↦ (err duplicate_key, db)
    | some t ↦ (ok p, record db { prices = t })
  ]

  unfoldable pub owned_event : ℕ → AuthenticatedUser → Exec (Db D) Event
  owned_event id user = do
    found ← gets (λ db. D.events.find_one_by db.events (λ e. e.id == id))
    event ← require found (not_found "Event not found")
    raise_if (not (is_admin user.role) && not (event.organizer_id == user.sub))
        (forbidden "You do not own this event")
    pure event

  -- `id` is the id that the database generates.
  unfoldable pub create_event : ℕ → ℕ → AuthenticatedUser → CreateEvent → Exec (Db D) Event
  create_event now id user body = do
    venue ← gets (λ db. D.venues.find_one_by db.venues (λ v. v.id == body.venue_id))
    require venue entity_not_found
    lift (validate_event_times now body.starts_at body.ends_at true)
    starts_at ← require body.starts_at (bad_request "Event times are invalid")
    insert_event (new_event id user.sub body starts_at)

  unfoldable pub update_event : ℕ → AuthenticatedUser → ℕ → UpdateEvent → Exec (Db D) Event
  unfolding owned_event
  update_event now user id body = do
    event ← owned_event id user
    lift (
        validate_event_times now (next_start body event) (next_end body event)
          (is_given body.starts_at))
    starts_at ← require (next_start body event) (bad_request "Event times are invalid")
    save_event (assigned body event starts_at)

  -- The check of `addPricing` that a sector is one of the event's venue.
  abbrev pub check_sector : Option ℕ → ℕ → Exec (Db D) (Unit {0})
  check_sector none venue_id = pure tt
  check_sector (some sector_id) venue_id = do
    found ←
        gets (λ db.
          D.sectors.find_one_by db.sectors (λ s. s.id == sector_id && s.venue_id == venue_id))
    require found (not_found "Sector does not belong to the event venue")
    pure tt

  unfoldable pub add_pricing :
      ℕ → AuthenticatedUser → ℕ → CreatePricing → Exec (Db D) PricingCategory
  unfolding owned_event
  add_pricing id user event_id body = do
    event ← owned_event event_id user
    check_sector body.sector_id event.venue_id
    insert_price (new_pricing id event_id body)

  abbrev pub prices_of : ℕ → Db D → List PricingCategory
  prices_of event_id db = D.prices.find_by db.prices (λ p. p.event_id == event_id)

  unfoldable pub publish : AuthenticatedUser → ℕ → Exec (Db D) Event
  unfolding owned_event
  publish user id = do
    event ← owned_event id user
    priced ← gets (prices_of id)
    raise_if (is_empty priced) (forbidden "At least one price is required")
    save_event (record event { published = true })
