-- ===== src/Venues/Grid.antt =====
-- The seats that `createSector` of backend/src/catalog.controller.ts makes.
use native.Mathlib.Nat.{suc-mul}
use ki_ticket.Base.{
  ℕ, zero, suc, ◌+◌, ◌*◌, ◌≤◌, ◌<◌, ◌≡◌, ◌⊎◌, refl, sym, ap, ◌∙◌, true, List, [], ◌∷◌, ◌++◌, arith,
  In, inl, inr, length, ==_iff, eq_iff,
}
use ki_ticket.Entities.{Seat, seat_entity}
use ki_ticket.RowLabel.{row_label}
use ki_ticket.RowLabel.Reading.{row_label_injective}
use ki_ticket.Venues.{Generated, CreateSector, new_seat, seats_of_row, seats_from, grid}

length-append : (xs ys : List Seat) → length (xs ++ ys) ≡ length xs + length ys
length-append [] ys = omega arith
length-append (x ∷ xs) ys = omega (arith, length-append xs ys)

In-append : (s : Seat) (xs ys : List Seat) → In s (xs ++ ys) → In s xs ⊎ In s ys
In-append s [] ys m = inr m
In-append s (x ∷ xs) ys (inl e) = inl (inl e)
In-append s (x ∷ xs) ys (inr m) = ground (arith, In-append s xs ys m)

module _ (ids : Generated) (body : CreateSector) where
  length-row : (row number more : ℕ) → length (seats_of_row ids body row number more) ≡ more
  length-row row number zero = refl
  length-row row number (suc more) = ap suc (length-row row (suc number) more)

  length-seats_from :
      (row more : ℕ) → length (seats_from ids body row more) ≡ more * body.seats_per_row
  length-seats_from row zero = omega arith
  length-seats_from row (suc more) =
      length-append (seats_of_row ids body row 1 body.seats_per_row)
        (seats_from ids body (suc row) more)
      ∙ rw (suc-mul more body.seats_per_row)
          (omega (arith, length-row row 1 body.seats_per_row, length-seats_from (suc row) more))

  -- The capacity of a sector is the number of its rows times that of the seats of a row.
  pub length-grid : length (grid ids body) ≡ body.rows * body.seats_per_row
  length-grid = length-seats_from 0 body.rows

  -- A seat of the grid has a row and a number.
  abbrev pub Placed : Seat → Type 0
  Placed s =
      (row : ℕ) × (number : ℕ) × (row < body.rows)
      × (1 ≤ number)
      × (number ≤ body.seats_per_row)
      × (s ≡ new_seat ids body row number)

  placed_in_row :
      (row number more : ℕ) (s : Seat)
      → In s (seats_of_row ids body row number more)
      → (k : ℕ) × (number ≤ k) × (k < number + more) × (s ≡ new_seat ids body row k)
  placed_in_row row number zero s m = absurd m
  placed_in_row row number (suc more) s (inl e) = (number, omega arith, omega arith, e)
  placed_in_row row number (suc more) s (inr m) =
      let (k, a, b, e) = placed_in_row row (suc number) more s m in (k, omega arith, omega arith, e)

  placed_from :
      (row more : ℕ) (s : Seat)
      → In s (seats_from ids body row more)
      → (r : ℕ) × (k : ℕ) × (r < row + more)
        × (1 ≤ k)
        × (k ≤ body.seats_per_row)
        × (s ≡ new_seat ids body r k)
  placed_from row zero s m = absurd m
  placed_from row (suc more) s m =
      elim (In-append s (seats_of_row ids body row 1 body.seats_per_row)
        (seats_from ids body (suc row) more) m) [
          | inl here ↦
              let (k, a, b, e) = placed_in_row row 1 body.seats_per_row s here in
              (row, k, omega arith, a, omega arith, e)
          | inr later ↦
              let (r, k, a, b, c, e) = placed_from (suc row) more s later in
              (r, k, omega arith, b, c, e)
        ]

  pub grid-Placed : (s : Seat) → In s (grid ids body) → Placed s
  grid-Placed s m =
      let (r, k, a, b, c, e) = placed_from 0 body.rows s m in (r, k, omega arith, b, c, e)

  -- No two seats of the grid violate the unique constraint of the seats: two that agree on it are
  -- the same seat.
  pub grid_unique :
      (s t : Seat)
      → In s (grid ids body)
      → In t (grid ids body)
      → seat_entity.clash s t ≡ true
      → s ≡ t
  grid_unique s t m k h =
      let (r, a, _, _, _, e) = grid-Placed s m in
      let (q, b, _, _, _, f) = grid-Placed t k in
      let row_same : row_label r ≡ row_label q =
        sym (ap (λ (x : Seat). x.row) e)
        ∙ ((eq_iff s.row t.row).0 (ground arith) ∙ ap (λ (x : Seat). x.row) f) in
      let number_same : a ≡ b =
        sym (ap (λ (x : Seat). x.number) e)
        ∙ ((==_iff s.number t.number).0 (ground arith) ∙ ap (λ (x : Seat). x.number) f) in
      e
      ∙ (ap (λ (x : ℕ). new_seat ids body x a) (row_label_injective r q row_same)
          ∙ (ap (λ (x : ℕ). new_seat ids body q x) number_same ∙ sym f))
