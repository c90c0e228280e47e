-- ===== src/Search.antt =====
-- The listings of backend/src/catalog.controller.ts: the search of events, the events of an
-- organizer, and the venues with their layouts.
pub mod Arranged
pub mod Pages
use ki_ticket.Base.{
  ℕ, ◌+◌, ◌-◌, ◌*◌, ◌/◌, String, Bool, true, false, not, ◌&&◌, ◌||◌, Option, none, some, List, [],
  ◌∷◌, map, any, length, has, is_empty, select, sort_by, page_at, ◌==◌, ltb, leb, str_eq,
  if◌then◌else◌,
}
use ki_ticket.Outcome.{
  Exec, Result, ok, err, not_found, duplicate_key, require, gets, pure, ◌>>=◌, ◌>>◌,
}
use ki_ticket.Entities.{Event, Venue, Sector, Seat, ReservationSeat, is_admin}
use ki_ticket.World.{Repositories, Db, AuthenticatedUser}

-- `EventQueryDto`, with its defaults filled in.
pub record EventQuery : Type 0 where
  pub q : Option String
  pub genre : Option String
  pub city : Option String
  pub from : Option ℕ
  pub to : Option ℕ
  pub available : Bool
  pub page : ℕ
  pub limit : ℕ

-- `if (value)` of a text of the query.
abbrev pub unless_empty : Option String → (String → Bool) → Bool
unless_empty none test = true
unless_empty (some s) test = str_eq s "" || test s

abbrev pub unless_none : Option ℕ → (ℕ → Bool) → Bool
unless_none none test = true
unless_none (some n) test = test n

pub record EventPage : Type 0 where
  pub items : List Event
  pub page : ℕ
  pub limit : ℕ
  pub total : ℕ
  pub pages : ℕ

abbrev pub starts_before : Event → Event → Bool
starts_before a b = leb a.starts_at b.starts_at

-- `Math.ceil(a / b)`
abbrev pub ceil_div : ℕ → ℕ → ℕ
ceil_div a b = (a + (b - 1)) / b

-- `ilike` is the match of a column with `%term%`; `joined` is the column of tags.
module _ (ilike : String → String → Bool) (joined : List String → String) (D : Repositories) where
  abbrev pub mentions : Event → String → Bool
  mentions e term = ilike e.title term || ilike e.description term || ilike (joined e.tags) term

  -- A seat of a sector of the venue that has no row for the event.
  abbrev pub has_free_seat : Db D → Event → Bool
  has_free_seat db e =
      any
        (λ (sector : Sector).
          any
            (λ (s : Seat). is_empty (
              D.reservation_seats.find_by db.reservation_seats
                (λ r. r.event_id == e.id && r.seat_id == s.id)))
            (D.seats.find_by db.seats (λ s. s.sector_id == sector.id)))
        (D.sectors.find_by db.sectors (λ sector. sector.venue_id == e.venue_id))

  abbrev pub listed_at : ℕ → EventQuery → Db D → Event → Bool
  listed_at now query db e =
      e.published
      && ltb now e.starts_at
      && unless_empty query.q (mentions e)
      && unless_empty query.genre (str_eq e.genre)
      && unless_empty query.city (str_eq e.city)
      && unless_none query.from (λ t. leb t e.starts_at)
      && unless_none query.to (λ t. leb e.starts_at t)
      && (not query.available || has_free_seat db e)

  -- The rows that meet the query.
  abbrev pub matches : ℕ → EventQuery → Db D → List Event
  matches now query db = D.events.find_by db.events (listed_at now query db)

  -- `arrange` is `ORDER BY`: the database puts events with one start in any order, and may put them in
  -- another one for the next page.
  unfoldable pub list_events :
      (arrange : List Event → List Event) → ℕ → EventQuery → Db D → EventPage
  list_events arrange now query db =
      let found = matches now query db in
      record {
        items = page_at query.limit (query.page - 1) (arrange found);
        page = query.page;
        limit = query.limit;
        total = length found;
        pages = ceil_div (length found) query.limit;
      }

-- The order of names, and that of two seats of a row by their labels, are the database's and
-- `localeCompare`'s.
pub record Collation : Type 0 where
  pub name_le : String → String → Bool
  pub label_lt : String → String → Bool

abbrev pub seat_before : Collation → Seat → Seat → Bool
seat_before c a b =
    c.label_lt a.row b.row || (not (c.label_lt b.row a.row) && leb a.number b.number)

pub record SectorLayout : Type 0 where
  pub sector : Sector
  pub seats : List Seat

pub record Layout : Type 0 where
  pub venue : Venue
  pub capacity : ℕ
  pub sectors : List SectorLayout

-- The sector with its seats.
abbrev pub sector_layout : Collation → List Seat → Sector → SectorLayout
sector_layout c seats sector = record {
  sector = sector;
  seats = sort_by (seat_before c) (select (λ (s : Seat). s.sector_id == sector.id) seats);
}

module _ (D : Repositories) where
  -- `listOwned`, with the events that start at once in one of the orders that the database may take.
  unfoldable pub list_owned : AuthenticatedUser → Db D → List Event
  list_owned user db =
      sort_by starts_before
        (D.events.find_by db.events (λ e. is_admin user.role || e.organizer_id == user.sub))

  -- `list` of the venues
  unfoldable pub list_venues : Collation → Db D → List Venue
  list_venues c db =
      sort_by (λ (a b : Venue). c.name_le a.name b.name) (D.venues.find_by db.venues (λ v. true))

  -- `create` of a venue, under the id that the database generates.
  unfoldable pub create_venue : (id : ℕ) → (name city address : String) → Exec (Db D) Venue
  create_venue id name city address db =
      let venue : Venue = record { id = id; name = name; city = city; address = address } in
      elim (D.venues.insert db.venues venue) [
        | none ↦ (err duplicate_key, db)
        | some t ↦ (ok venue, record db { venues = t })
      ]

  abbrev pub seats_of : Db D → List Sector → List Seat
  seats_of db [] = []
  seats_of db (s ∷ rest) =
      D.seats.find_by db.seats (λ x. has x.sector_id (map (λ (y : Sector). y.id) (s ∷ rest)))

  unfoldable pub layout : Collation → ℕ → Exec (Db D) Layout
  layout c id = do
    found ← gets (λ db. D.venues.find_one_by db.venues (λ v. v.id == id))
    venue ← require found (not_found "Venue not found")
    sectors ← gets (λ db. D.sectors.find_by db.sectors (λ s. s.venue_id == id))
    seats ← gets (λ db. seats_of db sectors)
    pure (record {
      venue = venue;
      capacity = length seats;
      sectors = map (sector_layout c seats) sectors;
    })
