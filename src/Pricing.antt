-- ===== src/Pricing.antt =====
-- The prices of a reservation's seats: the pure part of `create` in
-- backend/src/reservations.controller.ts.
pub mod Lookup
use ki_ticket.Base.{
  ℕ, ◌+◌, String, Bool, true, false, Option, none, some, List, [], ◌∷◌, find, ◌==◌, if◌then◌else◌,
}
use ki_ticket.Outcome.{conflict, Result, ok, err}
use ki_ticket.Entities.{Seat, PricingCategory, same_number}

-- A seat's id and its price: an entry of `seatPrices`.
abbrev pub Prices : Type 0
Prices = List (ℕ × ℕ)

-- `Map.get`: of two entries with one key the later counts.
abbrev pub price_of : Prices → ℕ → Option ℕ
price_of [] seat_id = none
price_of ((s, p) ∷ rest) seat_id = elim (price_of rest seat_id) [
  | some q ↦ some q
  | none ↦ if s == seat_id then some p else none
]

-- `seatPrices.get(seatId) ?? 0`
abbrev pub price_or_zero : Prices → ℕ → ℕ
price_or_zero prices seat_id = elim (price_of prices seat_id) [ some p ↦ p | none ↦ 0 ]

abbrev pub is_default : PricingCategory → Bool
is_default p = elim p.sector_id [ none ↦ true | some s ↦ false ]

-- `pricing.find(…) ?? defaultPrice`
abbrev pub category_for : List PricingCategory → Seat → Option PricingCategory
category_for pricing seat =
    elim (find (λ p. same_number p.sector_id (some seat.sector_id)) pricing) [
      | some p ↦ some p
      | none ↦ find is_default pricing
    ]

abbrev pub prepend : ℕ × ℕ → Result Prices → Result Prices
prepend e (ok prices) = ok (e ∷ prices)
prepend e (err x) = err x

-- The entries of `seatPrices`; a seat without a category ends the request.
unfoldable pub price_seats : List PricingCategory → List Seat → Result Prices
price_seats pricing [] = ok []
price_seats pricing (seat ∷ rest) = elim (category_for pricing seat) [
  | none ↦ err (conflict "Selected seat has no pricing category")
  | some category ↦ prepend (seat.id, category.price) (price_seats pricing rest)
]

-- `body.seatIds.reduce(…, 0)`
unfoldable pub total_from : ℕ → Prices → List ℕ → ℕ
total_from sum prices [] = sum
total_from sum prices (seat_id ∷ rest) = total_from (sum + price_or_zero prices seat_id) prices rest

-- `pricing[0]?.currency ?? 'IRR'`
abbrev pub first_currency : List PricingCategory → String
first_currency [] = "IRR"
first_currency (p ∷ ps) = p.currency
