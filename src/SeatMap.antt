-- ===== src/SeatMap.antt =====
-- The choice of seats on the page of an event, frontend/src/components/EventPage.tsx: `toggle`, the
-- refresh of the inventory, the chosen seats with their total, and the rows of the map.
pub mod Selection
pub mod Sums
pub mod Total
pub mod Rows
use ki_ticket.Base.{
  ℕ, ◌+◌, String, Bool, true, false, not, ◌&&◌, Option, none, some, List, [], ◌∷◌, ◌++◌, any, has,
  select, length, is_empty, ltb, ◌==◌, str_eq, if◌then◌else◌,
}
use ki_ticket.EventPage.{Item, is_available}

-- `inventory.some((seat) => seat.id === seatId && seat.state === "AVAILABLE")`
abbrev pub offers : List Item → ℕ → Bool
offers inventory seat_id = any (λ s. s.seat_id == seat_id && is_available s.state) inventory

-- What is kept of a selection when the page has read a new inventory, and of one that was made
-- before the login.
unfoldable pub refreshed : List Item → List ℕ → List ℕ
refreshed inventory = select (offers inventory)

unfoldable pub toggle : ℕ → List ℕ → List ℕ
toggle seat_id current =
    if has seat_id current
    then select (λ x. not (x == seat_id)) current
    else if ltb (length current) 10
    then current ++ seat_id ∷ []
    else current

unfoldable pub chosen : List Item → List ℕ → List Item
chosen inventory selected = select (λ s. has s.seat_id selected) inventory

abbrev pub total_of : List Item → ℕ
total_of [] = 0
total_of (s ∷ rest) = s.price + total_of rest

-- The grouping by `reduce`: the seats of a row in the order of the inventory, the rows in the
-- order in which they come up, since no label of a row is a number or a name of `Object`.
abbrev pub put : Item → List (String × List Item) → List (String × List Item)
put s [] = (s.row, s ∷ []) ∷ []
put s ((row, seats) ∷ rest) =
    if str_eq row s.row then (row, seats ++ s ∷ []) ∷ rest else (row, seats) ∷ put s rest

unfoldable pub rows_from : List (String × List Item) → List Item → List (String × List Item)
rows_from groups [] = groups
rows_from groups (s ∷ rest) = rows_from (put s groups) rest

-- The button that reserves is enabled.
abbrev pub may_reserve : (bookable viewing : Bool) → List ℕ → Bool
may_reserve bookable viewing selected = bookable && not (is_empty selected) && viewing
