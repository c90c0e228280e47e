-- ===== src/SeatMap/Selection.antt =====
-- What a selection can be, whatever the customer clicks and whatever the page reads.
use ki_ticket.Base.{
  ℕ, suc, ◌≤◌, ◌≡◌, sym, ap, refl, arith, Bool, true, false, not, List, [], ◌∷◌, ◌++◌, select, has,
  length, In, Distinct, In-has, In-select, In-snoc, is_empty, ltb, ◌==◌, Bool-cases, inl, inr,
}
use ki_ticket.EventPage.{Item, is_available}
use ki_ticket.SeatMap.{offers, refreshed, toggle, may_reserve}

-- The inventory that the page shows, and the selection.
pub record View : Type 0 where
  pub inventory : List Item
  pub selected : List ℕ

-- A click on a seat, whose button is enabled only if the seat is available; a new inventory; and
-- the selection of before the login, which was once a selection of the page.
pub data Step : View → View → Type 0 where
  click :
      (v : View) (s : Item)
      → In s v.inventory
      → is_available s.state ≡ true
      → Step v (record v { selected = toggle s.seat_id v.selected })
  refresh :
      (v : View) (inventory : List Item)
      → Step v (record { inventory = inventory; selected = refreshed inventory v.selected })
  resume :
      (v : View) (pending : List ℕ)
      → Distinct pending
      → length pending ≤ 10
      → Step v (record v { selected = refreshed v.inventory pending })

pub data Reach (v : View) : View → Type 0 where
  here : Reach v v
  next : {w x : View} → Reach v w → Step w x → Reach v x

pub record IsFit (v : View) : Type 0 where
  pub distinct : Distinct v.selected
  pub few : length v.selected ≤ 10
  pub offered : (x : ℕ) → In x v.selected → offers v.inventory x ≡ true

length-select : (p : ℕ → Bool) (xs : List ℕ) → length (select p xs) ≤ length xs
length-select p [] = omega arith
length-select p (x ∷ xs) = ground (arith, length-select p xs)

Distinct-select : (p : ℕ → Bool) (xs : List ℕ) → Distinct xs → Distinct (select p xs)
Distinct-select p [] d = tt
Distinct-select p (x ∷ xs) d = elim (Bool-cases (p x)) [
  | inl e ↦ rw e (λ m. d.0 ((In-select p x xs).0 m).0, Distinct-select p xs d.1)
  | inr e ↦ rw e (Distinct-select p xs d.1)
]

Distinct-snoc : (y : ℕ) (xs : List ℕ) → Distinct xs → ¬ In y xs → Distinct (xs ++ y ∷ [])
Distinct-snoc y [] d n = (λ m. absurd m, tt)
Distinct-snoc y (x ∷ xs) d n = (
  λ m. elim (In-snoc x y xs m) [ inl q ↦ d.0 q | inr q ↦ n (inl (sym q)) ],
  Distinct-snoc y xs d.1 (λ m. n (inr m)),
)

length-snoc : (y : ℕ) (xs : List ℕ) → length (xs ++ y ∷ []) ≡ suc (length xs)
length-snoc y [] = refl
length-snoc y (x ∷ xs) = ap suc (length-snoc y xs)

offers-In :
    (inventory : List Item) (s : Item)
    → In s inventory
    → is_available s.state ≡ true
    → offers inventory s.seat_id ≡ true
offers-In [] s m a = absurd m
offers-In (t ∷ rest) s (inl e) a = rw (← e) (ground arith)
offers-In (t ∷ rest) s (inr m) a = ground (arith, offers-In rest s m a)

refreshed-IsFit :
    (inventory : List Item) (xs : List ℕ)
    → Distinct xs
    → length xs ≤ 10
    → IsFit (record { inventory = inventory; selected = refreshed inventory xs })
unfolding refreshed
refreshed-IsFit inventory xs d few = record {
  distinct = Distinct-select (offers inventory) xs d;
  few = omega (arith, length-select (offers inventory) xs);
  offered = λ x m. ((In-select (offers inventory) x xs).0 m).1;
}

toggle-IsFit :
    (v : View) (s : Item)
    → In s v.inventory
    → is_available s.state ≡ true
    → IsFit v
    → IsFit (record v { selected = toggle s.seat_id v.selected })
unfolding toggle
toggle-IsFit v s m a fit = elim (Bool-cases (has s.seat_id v.selected)) [
  | inl old ↦ record {
    distinct = rw old (Distinct-select (λ x. not (x == s.seat_id)) v.selected fit.distinct);
    few = rw old (omega (arith, length-select (λ x. not (x == s.seat_id)) v.selected, fit.few));
    offered = λ x q.
        fit.offered x ((In-select (λ y. not (y == s.seat_id)) x v.selected).0 (rw old at q)).0;
  }
  | inr new ↦ elim (Bool-cases (ltb (length v.selected) 10)) [
    | inr full ↦ record {
      distinct = rw (new, full) fit.distinct;
      few = rw (new, full) fit.few;
      offered = λ x q. fit.offered x (rw (new, full) at q);
    }
    | inl room ↦ record {
      distinct =
          rw (new, room)
            (Distinct-snoc s.seat_id v.selected fit.distinct
              (λ q. let h = In-has s.seat_id v.selected q in cc));
      few = rw (new, room) (ground (arith, length-snoc s.seat_id v.selected));
      offered = λ x q. elim (In-snoc x s.seat_id v.selected (rw (new, room) at q)) [
        | inl o ↦ fit.offered x o
        | inr o ↦ rw o (offers-In v.inventory s m a)
      ];
    }
  ]
]

Step-IsFit : {v w : View} → Step v w → IsFit v → IsFit w
Step-IsFit (click v s m a) fit = toggle-IsFit v s m a fit
Step-IsFit (refresh v inventory) fit = refreshed-IsFit inventory v.selected fit.distinct fit.few
Step-IsFit (resume v pending d few) fit = refreshed-IsFit v.inventory pending d few

-- What `CreateReservationDto` demands of the seats of a request: one to ten of them, and none twice.
abbrev pub Acceptable : List ℕ → Type 0
Acceptable seat_ids = (1 ≤ length seat_ids) × (length seat_ids ≤ 10) × Distinct seat_ids

-- fits
pub Reach-IsFit : {v w : View} → v.selected ≡ [] → Reach v w → IsFit w
Reach-IsFit {v} none_selected here = record {
  distinct = rw none_selected tt;
  few = rw none_selected (omega arith);
  offered = λ x m. absurd (rw none_selected at m);
}
Reach-IsFit none_selected (next r st) = Step-IsFit st (Reach-IsFit none_selected r)

-- Whatever seats the customer clicks, whatever inventories the page reads and whatever earlier
-- selection it resumes, when the button that reserves is enabled the selection is one that the
-- request accepts: one to ten seats, none twice, each of them available in the inventory that the
-- page shows.
pub Reach-Acceptable :
    (v w : View) (bookable viewing : Bool)
    → v.selected ≡ []
    → Reach v w
    → may_reserve bookable viewing w.selected ≡ true
    → Acceptable w.selected × ((x : ℕ) → In x w.selected → offers w.inventory x ≡ true)
Reach-Acceptable v w bookable viewing none_selected r enabled =
    let fit = Reach-IsFit none_selected r in
    ((some_selected w.selected (ground arith), fit.few, fit.distinct), fit.offered)
  where
    some_selected : (xs : List ℕ) → is_empty xs ≡ false → 1 ≤ length xs
    some_selected [] h = absurd (ground arith)
    some_selected (x ∷ xs) h = omega arith
