-- ===== src/Venues.antt =====
-- `VenuesController.createSector` of backend/src/catalog.controller.ts.
pub mod Grid
use Prim.Native.String.{String, [], ◌∷◌}
use Prim.Native.Char.{Char, char, code, IsScalar}
use ki_ticket.Base.{
  ℕ, zero, suc, ◌+◌, ◌-◌, ◌*◌, ◌/◌, ◌%◌, ◌<◌, ◌≡◌, Bool, true, false, not, ◌&&◌, Option, none, some,
  List, [], ◌∷◌, ◌++◌, String, length, map, arith, ◌==◌, if◌then◌else◌,
}
use Prim.Native.Nat.{Ordering, compare}
use ki_ticket.RowLabel.{row_label}
use ki_ticket.Outcome.{
  Exec, Result, ok, err, entity_not_found, duplicate_key, require, gets, pure, ◌>>=◌, ◌>>◌,
}
use ki_ticket.Database.{insert_all}
use ki_ticket.Entities.{Sector, Seat}
use ki_ticket.World.{Repositories, Db}

-- `CreateSectorDto`
pub record CreateSector : Type 0 where
  pub name : String
  pub rows : ℕ
  pub seats_per_row : ℕ
  pub accessible_first_row : Bool

-- The ids that the database generates for the sector, and for the seat of a row and a number.
pub record Generated : Type 0 where
  pub sector_id : ℕ
  pub seat_id : ℕ → ℕ → ℕ

module _ (ids : Generated) (body : CreateSector) where
  abbrev pub new_seat : ℕ → ℕ → Seat
  new_seat row_index number = record {
    id = ids.seat_id row_index number;
    sector_id = ids.sector_id;
    row = row_label row_index;
    number = number;
    accessible = body.accessible_first_row && row_index == 0;
  }

  -- The inner loop, for so many more numbers.
  abbrev pub seats_of_row : ℕ → ℕ → ℕ → List Seat
  seats_of_row row_index number zero = []
  seats_of_row row_index number (suc more) =
      new_seat row_index number ∷ seats_of_row row_index (suc number) more

  -- The outer loop, for so many more rows.
  abbrev pub seats_from : ℕ → ℕ → List Seat
  seats_from row_index zero = []
  seats_from row_index (suc more) =
      seats_of_row row_index 1 body.seats_per_row ++ seats_from (suc row_index) more

  abbrev pub grid : List Seat
  grid = seats_from 0 body.rows

module _ (D : Repositories) where
  abbrev pub insert_sector : Sector → Exec (Db D) (Unit {0})
  insert_sector s db = elim (D.sectors.insert db.sectors s) [
    | none ↦ (err duplicate_key, db)
    | some t ↦ (ok tt, record db { sectors = t })
  ]

  abbrev pub insert_seats : List Seat → Exec (Db D) (Unit {0})
  insert_seats rows db = elim (insert_all D.seats rows db.seats) [
    | none ↦ (err duplicate_key, db)
    | some t ↦ (ok tt, record db { seats = t })
  ]

  -- The new sector with its capacity.
  unfoldable pub create_sector : Generated → ℕ → CreateSector → Exec (Db D) (Sector × ℕ)
  create_sector ids venue_id body = do
    found ← gets (λ db. D.venues.find_one_by db.venues (λ v. v.id == venue_id))
    require found entity_not_found
    let sector : Sector = record { id = ids.sector_id; venue_id = venue_id; name = body.name }
    insert_sector sector
    insert_seats (grid ids body)
    pure (sector, length (grid ids body))
