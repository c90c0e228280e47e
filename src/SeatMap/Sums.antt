-- ===== src/SeatMap/Sums.antt =====
-- Sums over the chosen seats of an inventory.
use ki_ticket.Base.{
  ℕ, ◌+◌, ◌≡◌, refl, sym, ap, ◌∙◌, subst, arith, true, false, List, [], ◌∷◌, map, has, select, In,
  In-map, has-In, Distinct, Bool-cases, inl, inr, ◌==◌, ==_iff,
}
use ki_ticket.Pricing.Lookup.{sum}
use ki_ticket.EventPage.{Item}
use ki_ticket.SeatMap.{chosen, total_of}

abbrev pub seat_ids : List Item → List ℕ
seat_ids = map (λ (i : Item). i.seat_id)

abbrev with_id : ℕ → List Item → List Item
with_id x = select (λ (i : Item). i.seat_id == x)

abbrev with_ids : List ℕ → List Item → List Item
with_ids xs = select (λ (i : Item). has i.seat_id xs)

has_absent : (x y : ℕ) (xs : List ℕ) → ¬ In x xs → (y == x) ≡ true → has y xs ≡ false
has_absent x y xs n e = elim (Bool-cases (has y xs)) [
  | inr h ↦ h
  | inl h ↦ absurd (n (subst (λ z. In z xs) ((==_iff y x).0 e) (has-In y xs h)))
]

-- One chosen seat more.
total_first :
    (inventory : List Item) (x : ℕ) (xs : List ℕ)
    → ¬ In x xs
    → total_of (with_ids (x ∷ xs) inventory)
      ≡ total_of (with_id x inventory) + total_of (with_ids xs inventory)
total_first [] x xs n = refl
total_first (i ∷ rest) x xs n =
    let later = total_first rest x xs n in
    elim (Bool-cases (i.seat_id == x)) [
      | inl e ↦ let out = has_absent x i.seat_id xs n e in rw (e, out) (omega arith)
      | inr e ↦ elim (Bool-cases (has i.seat_id xs)) [
        | inl f ↦ rw (e, f) (omega arith)
        | inr f ↦ rw (e, f) (omega arith)
      ]
    ]

total_absent :
    (inventory : List Item) (x : ℕ)
    → ¬ In x (seat_ids inventory)
    → total_of (with_id x inventory) ≡ 0
total_absent [] x n = refl
total_absent (i ∷ rest) x n =
    let later = total_absent rest x (λ m. n (inr m)) in
    elim (Bool-cases (i.seat_id == x)) [
      | inl e ↦ absurd (n (inl (sym ((==_iff i.seat_id x).0 e))))
      | inr e ↦ rw e later
    ]

total_one :
    (inventory : List Item) (i : Item)
    → Distinct (seat_ids inventory)
    → In i inventory
    → total_of (with_id i.seat_id inventory) ≡ i.price
total_one [] i d m = absurd m
total_one (j ∷ rest) i d (inl e) =
    let others : total_of (with_id i.seat_id rest) ≡ 0 =
      subst (λ k. total_of (with_id k.seat_id rest) ≡ 0) (sym e)
        (total_absent rest j.seat_id d.0) in
    let prices = ap (λ (k : Item). k.price) e in
    rw ((==_iff j.seat_id i.seat_id).1 (ap (λ (k : Item). k.seat_id) (sym e))) (omega arith)
total_one (j ∷ rest) i d (inr m) =
    let later = total_one rest i d.1 m in
    elim (Bool-cases (j.seat_id == i.seat_id)) [
      | inl e ↦ absurd (
          d.0 (
            subst (λ y. In y (seat_ids rest)) (sym ((==_iff j.seat_id i.seat_id).0 e))
              (In-map (λ (k : Item). k.seat_id) i rest m)))
      | inr e ↦ rw e later
    ]

total_none : (inventory : List Item) → total_of (with_ids [] inventory) ≡ 0
total_none [] = refl
total_none (i ∷ rest) = total_none rest

-- A price for each of the seats.
abbrev pub Priced : List Item → (ℕ → ℕ) → ℕ → Type 0
Priced inventory price x = (i : Item) × In i inventory × (i.seat_id ≡ x) × (i.price ≡ price x)

pub total_sum :
    (inventory : List Item) (price : ℕ → ℕ) (xs : List ℕ)
    → Distinct (seat_ids inventory)
    → Distinct xs
    → ((x : ℕ) → In x xs → Priced inventory price x)
    → total_of (chosen inventory xs) ≡ sum (map price xs)
unfolding chosen
total_sum inventory price [] d e h = total_none inventory
total_sum inventory price (x ∷ xs) d e h =
    let (i, m, same, p) = h x (inl refl) in
    let one : total_of (with_id x inventory) ≡ price x =
      subst (λ y. total_of (with_id y inventory) ≡ price x) same (total_one inventory i d m ∙ p) in
    let rest = total_sum inventory price xs d e.1 (λ y k. h y (inr k)) in
    total_first inventory x xs e.0 ∙ omega arith
