-- ===== src/Queue/Line.antt =====
-- The order of the queue, and its first entries, keep the entries and their ids.
use ki_ticket.Base.{
  ℕ, suc, zero, ◌≡◌, ◌⊎◌, List, [], ◌∷◌, take, map, arith, In, Distinct, inl, inr, leb, Bool-cases,
}
use ki_ticket.Entities.{WaitingRoomEntry}
use ki_ticket.Queue.{insert_by_position, by_position}

abbrev pub ids : List WaitingRoomEntry → List ℕ
ids = map (λ e. e.id)

In-ids-insert :
    (i : ℕ) (e : WaitingRoomEntry) (rest : List WaitingRoomEntry)
    → In i (ids (insert_by_position e rest))
    → (i ≡ e.id) ⊎ In i (ids rest)
In-ids-insert i e [] m = m
In-ids-insert i e (f ∷ rest) m = elim (Bool-cases (leb e.position f.position)) [
  | inl q ↦ ground (arith, m)
  | inr q ↦ ground (arith, m, In-ids-insert i e rest)
]

Distinct-insert :
    (e : WaitingRoomEntry) (rest : List WaitingRoomEntry)
    → ¬ In e.id (ids rest)
    → Distinct (ids rest)
    → Distinct (ids (insert_by_position e rest))
Distinct-insert e [] out d = (out, tt)
Distinct-insert e (f ∷ rest) out d = elim (Bool-cases (leb e.position f.position)) [
  | inl q ↦ rw q (out, d)
  | inr q ↦ rw q (
    λ m. ground (arith, In-ids-insert f.id e rest m, d.0, λ (k : e.id ≡ f.id). out (inl k)),
    Distinct-insert e rest (λ m. out (inr m)) d.1,
  )
]

In-ids-by_position :
    (i : ℕ) (es : List WaitingRoomEntry) → In i (ids (by_position es)) → In i (ids es)
In-ids-by_position i [] m = m
In-ids-by_position i (e ∷ rest) m =
    ground (arith, In-ids-insert i e (by_position rest) m, In-ids-by_position i rest)

pub Distinct-by_position :
    (es : List WaitingRoomEntry) → Distinct (ids es) → Distinct (ids (by_position es))
Distinct-by_position [] d = tt
Distinct-by_position (e ∷ rest) d =
    Distinct-insert e (by_position rest) (λ m. d.0 (In-ids-by_position e.id rest m))
      (Distinct-by_position rest d.1)

In-ids-take : (n i : ℕ) (es : List WaitingRoomEntry) → In i (ids (take n es)) → In i (ids es)
In-ids-take zero i es m = absurd m
In-ids-take (suc n) i [] m = absurd m
In-ids-take (suc n) i (e ∷ rest) (inl k) = inl k
In-ids-take (suc n) i (e ∷ rest) (inr m) = inr (In-ids-take n i rest m)

pub Distinct-take :
    (n : ℕ) (es : List WaitingRoomEntry) → Distinct (ids es) → Distinct (ids (take n es))
Distinct-take zero es d = tt
Distinct-take (suc n) [] d = tt
Distinct-take (suc n) (e ∷ rest) d =
    (λ m. d.0 (In-ids-take n e.id rest m), Distinct-take n rest d.1)

pub In-by_position :
    (e : WaitingRoomEntry) (es : List WaitingRoomEntry) → In e (by_position es) → In e es
In-by_position e [] m = m
In-by_position e (f ∷ rest) m = elim (inserted f (by_position rest) m) [
  | inl q ↦ inl q
  | inr k ↦ inr (In-by_position e rest k)
]
  where
    inserted :
        (f : WaitingRoomEntry) (xs : List WaitingRoomEntry)
        → In e (insert_by_position f xs)
        → (e ≡ f) ⊎ In e xs
    inserted f [] m = m
    inserted f (g ∷ xs) m = elim (Bool-cases (leb f.position g.position)) [
      | inl q ↦ ground (arith, m)
      | inr q ↦ ground (arith, m, inserted f xs)
    ]

pub In-take :
    (n : ℕ) (e : WaitingRoomEntry) (es : List WaitingRoomEntry) → In e (take n es) → In e es
In-take zero e es m = absurd m
In-take (suc n) e [] m = absurd m
In-take (suc n) e (f ∷ rest) (inl k) = inl k
In-take (suc n) e (f ∷ rest) (inr m) = inr (In-take n e rest m)
