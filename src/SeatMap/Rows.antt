-- ===== src/SeatMap/Rows.antt =====
-- The rows of the map of seats.
use ki_ticket.Base.{
  String, ◌≡◌, ◌⊎◌, ◌∙◌, sym, refl, arith, true, false, List, [], ◌∷◌, ◌++◌, select, In, Distinct,
  map, str_eq, eq_iff, Bool-cases, inl, inr, if◌then◌else◌,
}
use mathlib.Core.List.{append-nil, append_assoc}
use ki_ticket.EventPage.{Item}
use ki_ticket.SeatMap.{put, rows_from}

-- The seats that the map shows in the row of this label.
abbrev pub seats_at : String → List (String × List Item) → List Item
seats_at label [] = []
seats_at label ((row, seats) ∷ rest) = if str_eq row label then seats else seats_at label rest

abbrev pub labels : List (String × List Item) → List String
labels = map (λ g. g.0)

str_eq_left : (a b c : String) → str_eq a b ≡ true → str_eq a c ≡ str_eq b c
str_eq_left a b c e = rw ((eq_iff a b).0 e) refl

-- A row of another label.
other : (a b c : String) → str_eq a b ≡ false → str_eq a c ≡ true → str_eq b c ≡ false
other a b c e f = elim (Bool-cases (str_eq b c)) [
  | inr n ↦ n
  | inl p ↦
      let same : str_eq a b ≡ true = (eq_iff a b).1 ((eq_iff a c).0 f ∙ sym ((eq_iff b c).0 p)) in
      cc
]

seats_at-put :
    (label : String) (s : Item) (groups : List (String × List Item))
    → seats_at label (put s groups)
      ≡ seats_at label groups ++ (if str_eq s.row label then s ∷ [] else [])
seats_at-put label s [] = ground arith
seats_at-put label s ((row, seats) ∷ rest) = elim (Bool-cases (str_eq row s.row)) [
  | inl e ↦ elim (Bool-cases (str_eq row label)) [
    | inl f ↦ rw (e, f, sym (str_eq_left row s.row label e) ∙ f) refl
    | inr f ↦ rw (e, f, sym (str_eq_left row s.row label e) ∙ f) (sym (append-nil _))
  ]
  | inr e ↦ elim (Bool-cases (str_eq row label)) [
    | inl f ↦ rw (e, f, other row s.row label e f) (sym (append-nil seats))
    | inr f ↦ rw (e, f) (seats_at-put label s rest)
  ]
]

seats_at-rows_from :
    (label : String) (groups : List (String × List Item)) (inventory : List Item)
    → seats_at label (rows_from groups inventory)
      ≡ seats_at label groups ++ select (λ s. str_eq s.row label) inventory
unfolding rows_from
seats_at-rows_from label groups [] = sym (append-nil _)
seats_at-rows_from label groups (s ∷ rest) =
    seats_at-rows_from label (put s groups) rest
    ∙ rw (seats_at-put label s groups) (elim (Bool-cases (str_eq s.row label)) [
      | inl e ↦ rw e (append_assoc (seats_at label groups) (s ∷ []) _)
      | inr e ↦ rw (e, append-nil (seats_at label groups)) refl
    ])

In-put :
    (label : String) (s : Item) (groups : List (String × List Item))
    → In label (labels (put s groups))
    → (label ≡ s.row) ⊎ In label (labels groups)
In-put label s [] m = m
In-put label s ((row, seats) ∷ rest) m = elim (Bool-cases (str_eq row s.row)) [
  | inl e ↦ inr (rw e at m)
  | inr e ↦ elim (rw e at m) [
    | inl same ↦ inr (inl same)
    | inr deep ↦ elim (In-put label s rest deep) [ inl q ↦ inl q | inr q ↦ inr (inr q) ]
  ]
]

Distinct-put :
    (s : Item) (groups : List (String × List Item))
    → Distinct (labels groups)
    → Distinct (labels (put s groups))
Distinct-put s [] d = (λ m. absurd m, tt)
Distinct-put s ((row, seats) ∷ rest) d = elim (Bool-cases (str_eq row s.row)) [
  | inl e ↦ rw e d
  | inr e ↦ rw e (
    λ m. elim (In-put row s rest m) [
      | inl q ↦ absurd (let same : str_eq row s.row ≡ true = (eq_iff row s.row).1 q in cc)
      | inr q ↦ d.0 q
    ],
    Distinct-put s rest d.1,
  )
]

Distinct-rows_from :
    (groups : List (String × List Item)) (inventory : List Item)
    → Distinct (labels groups)
    → Distinct (labels (rows_from groups inventory))
unfolding rows_from
Distinct-rows_from groups [] d = d
Distinct-rows_from groups (s ∷ rest) d =
    Distinct-rows_from (put s groups) rest (Distinct-put s groups d)

-- The map.
pub rows_lem :
    (inventory : List Item)
    → Distinct (labels (rows_from [] inventory))
      × ((label : String)
          → seats_at label (rows_from [] inventory) ≡ select (λ s. str_eq s.row label) inventory)
rows_lem inventory =
    (Distinct-rows_from [] inventory tt, λ label. seats_at-rows_from label [] inventory)
