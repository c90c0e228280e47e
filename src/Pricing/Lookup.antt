-- ===== src/Pricing/Lookup.antt =====
-- The prices that `create` of backend/src/reservations.controller.ts finds for its seats.
use ki_ticket.Base.{
  ℕ, ◌+◌, ◌≡◌, refl, sym, ◌∙◌, none, some, List, [], ◌∷◌, map, arith, In, Distinct, inl, inr,
  Option-cases, ==_iff,
}
use ki_ticket.Outcome.{ok, Result-cases, ok_injective}
use ki_ticket.Entities.{Seat, PricingCategory}
use ki_ticket.Pricing.{Prices, price_of, price_or_zero, category_for, price_seats, total_from}

abbrev pub ids : List Seat → List ℕ
ids = map (λ s. s.id)

-- A run over a first seat: its category, and the run over the rest.
pub price_seats_first :
    (pricing : List PricingCategory) (seat : Seat) (rest : List Seat) (prices : Prices)
    → price_seats pricing (seat ∷ rest) ≡ ok prices
    → (c : PricingCategory) × (category_for pricing seat ≡ some c)
      × ((more : Prices) × (price_seats pricing rest ≡ ok more)
          × (prices ≡ (seat.id, c.price) ∷ more))
unfolding price_seats
price_seats_first pricing seat rest prices h = elim (Option-cases (category_for pricing seat)) [
  | inl e ↦ absurd (ground arith)
  | inr (c, e) ↦ elim (Result-cases (price_seats pricing rest)) [
    | inr (x, q) ↦ absurd (ground arith)
    | inl (more, q) ↦ (c, e, (more, q, ok_injective (sym h ∙ ground arith)))
  ]
]

no_seats :
    (pricing : List PricingCategory) (prices : Prices)
    → price_seats pricing [] ≡ ok prices
    → prices ≡ []
unfolding price_seats
no_seats pricing prices h = sym (ok_injective h)

price_of_absent :
    (pricing : List PricingCategory) (seats : List Seat) (prices : Prices) (x : ℕ)
    → price_seats pricing seats ≡ ok prices
    → ¬ In x (ids seats)
    → price_of prices x ≡ none
price_of_absent pricing [] prices x h out = rw (no_seats pricing prices h) refl
price_of_absent pricing (seat ∷ rest) prices x h out =
    let (c, e, (more, q, same)) = price_seats_first pricing seat rest prices h in
    let later = price_of_absent pricing rest more x q (λ m. out (inr m)) in
    rw same (ground (arith, ==_iff seat.id x, λ (k : x ≡ seat.id). out (inl k)))

-- Every seat has the price of its category.
pub price_of-price_seats :
    (pricing : List PricingCategory) (seats : List Seat) (prices : Prices) (seat : Seat)
    → price_seats pricing seats ≡ ok prices
    → Distinct (ids seats)
    → In seat seats
    → (c : PricingCategory) × (category_for pricing seat ≡ some c)
      × (price_of prices seat.id ≡ some c.price)
price_of-price_seats pricing (first ∷ rest) prices seat h d (inl e) =
    let (c, k, (more, q, same)) = price_seats_first pricing first rest prices h in
    let later = price_of_absent pricing rest more first.id q d.0 in
    rw (e, same) (c, k, ground arith)
price_of-price_seats pricing (first ∷ rest) prices seat h d (inr m) =
    let (c, k, (more, q, same)) = price_seats_first pricing first rest prices h in
    let (b, l, p) = price_of-price_seats pricing rest more seat q d.1 m in
    rw same (b, l, ground arith)
price_of-price_seats pricing [] prices seat h d m = absurd m

-- The sum of the prices, as a sum over a list.
abbrev pub sum : List ℕ → ℕ
sum [] = 0
sum (x ∷ xs) = x + sum xs

pub total_from_lem :
    (start : ℕ) (prices : Prices) (seat_ids : List ℕ)
    → total_from start prices seat_ids ≡ start + sum (map (price_or_zero prices) seat_ids)
unfolding total_from
total_from_lem start prices [] = omega arith
total_from_lem start prices (x ∷ xs) =
    omega (arith, total_from_lem (start + price_or_zero prices x) prices xs)
