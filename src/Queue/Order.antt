-- ===== src/Queue/Order.antt =====
-- `admit` of backend/src/waiting-room.controller.ts takes the waiting entries in the order of their
-- positions.
use ki_ticket.Base.{
  ℕ, suc, zero, ◌≤◌, ◌≡◌, ◌⊎◌, ◌↔◌, some, List, [], ◌∷◌, take, arith, In, All, inl, inr, ==_iff,
  leb, Bool-cases,
}
use ki_ticket.Entities.{WaitingRoomEntry, WaitingRoomState}
use ki_ticket.World.{Repositories, Db}
use ki_ticket.Queue.{insert_by_position, by_position, next_in_line, queued_for}

-- The positions of a list do not go down.
abbrev pub Sorted : List WaitingRoomEntry → Type 0
Sorted [] = Unit
Sorted (e ∷ rest) = All (λ f. e.position ≤ f.position) rest × Sorted rest

All-weaker :
    (a b : ℕ) (rest : List WaitingRoomEntry)
    → a ≤ b
    → All (λ f. b ≤ f.position) rest
    → All (λ f. a ≤ f.position) rest
All-weaker a b [] p h = tt
All-weaker a b (f ∷ rest) p h = (omega (arith, h.0), All-weaker a b rest p h.1)

All-insert :
    (a : ℕ) (e : WaitingRoomEntry) (rest : List WaitingRoomEntry)
    → a ≤ e.position
    → All (λ f. a ≤ f.position) rest
    → All (λ f. a ≤ f.position) (insert_by_position e rest)
All-insert a e [] p h = (p, tt)
All-insert a e (f ∷ rest) p h = elim (Bool-cases (leb e.position f.position)) [
  | inl q ↦ rw q (p, h)
  | inr q ↦ rw q (h.0, All-insert a e rest p h.1)
]

insert-Sorted :
    (e : WaitingRoomEntry) (rest : List WaitingRoomEntry)
    → Sorted rest
    → Sorted (insert_by_position e rest)
insert-Sorted e [] s = (tt, tt)
insert-Sorted e (f ∷ rest) s = elim (Bool-cases (leb e.position f.position)) [
  | inl q ↦ rw q ((ground arith, All-weaker e.position f.position rest (ground arith) s.0), s)
  | inr q ↦ rw q (All-insert f.position e rest (ground arith) s.0, insert-Sorted e rest s.1)
]

by_position-Sorted : (es : List WaitingRoomEntry) → Sorted (by_position es)
by_position-Sorted [] = tt
by_position-Sorted (e ∷ rest) = insert-Sorted e (by_position rest) (by_position-Sorted rest)

In-insert :
    (x e : WaitingRoomEntry) (rest : List WaitingRoomEntry)
    → In x (insert_by_position e rest) ↔ ((x ≡ e) ⊎ In x rest)
In-insert x e [] = (λ m. m, λ m. m)
In-insert x e (f ∷ rest) = elim (Bool-cases (leb e.position f.position)) [
  | inl q ↦ rw q (λ m. m, λ m. m)
  | inr q ↦ rw q (ground (arith, In-insert x e rest))
]

In-by_position :
    (x : WaitingRoomEntry) (es : List WaitingRoomEntry) → In x (by_position es) ↔ In x es
In-by_position x [] = (λ m. m, λ m. m)
In-by_position x (e ∷ rest) =
    ground (arith, In-insert x e (by_position rest), In-by_position x rest)

All-In :
    (a : ℕ) (x : WaitingRoomEntry) (es : List WaitingRoomEntry)
    → All (λ f. a ≤ f.position) es
    → In x es
    → a ≤ x.position
All-In a x [] h m = absurd m
All-In a x (e ∷ rest) h (inl same) = rw same h.0
All-In a x (e ∷ rest) h (inr m) = All-In a x rest h.1 m

In-take : (n : ℕ) (x : WaitingRoomEntry) (es : List WaitingRoomEntry) → In x (take n es) → In x es
In-take zero x es m = absurd m
In-take (suc n) x [] m = absurd m
In-take (suc n) x (e ∷ rest) (inl same) = inl same
In-take (suc n) x (e ∷ rest) (inr m) = inr (In-take n x rest m)

take-first :
    (n : ℕ) (x y : WaitingRoomEntry) (es : List WaitingRoomEntry)
    → Sorted es
    → In x (take n es)
    → In y es
    → In y (take n es) ⊎ (x.position ≤ y.position)
take-first zero x y es s m k = absurd m
take-first (suc n) x y [] s m k = absurd m
take-first (suc n) x y (e ∷ rest) s m (inl same) = inl (inl same)
take-first (suc n) x y (e ∷ rest) s (inl same) (inr k) =
    inr (rw same (All-In e.position y rest s.0 k))
take-first (suc n) x y (e ∷ rest) s (inr m) (inr k) = ground (arith, take-first n x y rest s.1 m k)

module _ (D : Repositories) (event_id count : ℕ) (db : Db D) where
  -- Every entry that `admit` takes is one that waits for the event.
  pub next_in_line_waits :
      (e : WaitingRoomEntry)
      → In e (next_in_line D event_id count db)
      → (D.entries.get db.entries e.id ≡ some e)
        × (e.event_id ≡ event_id)
        × (e.state ≡ WaitingRoomState.queued)
  next_in_line_waits e m =
      let k =
        (In-by_position e (D.entries.find_by db.entries (queued_for D event_id))).0 (
          In-take count e (by_position (D.entries.find_by db.entries (queued_for D event_id))) m) in
      let (g, t) = D.entries.listed db.entries (queued_for D event_id) e k in
      (g, ground (arith, ==_iff e.event_id event_id), ground arith)

  -- An entry that waits for the event and that `admit` does not take has no lower position than the
  -- ones that it takes.
  pub next_in_line-first :
      (i : ℕ) (e f : WaitingRoomEntry)
      → In e (next_in_line D event_id count db)
      → D.entries.get db.entries i ≡ some f
      → f.event_id ≡ event_id
      → f.state ≡ WaitingRoomState.queued
      → ¬ In f (next_in_line D event_id count db)
      → e.position ≤ f.position
  next_in_line-first i e f m g same waits out =
      let k =
        D.entries.complete db.entries (queued_for D event_id) i f g
          (ground (arith, ==_iff f.event_id event_id)) in
      let rows = D.entries.find_by db.entries (queued_for D event_id) in
      elim (take-first count e f (by_position rows) (by_position-Sorted rows) m
        ((In-by_position f rows).1 k)) [ inl taken ↦ absurd (out taken) | inr p ↦ p ]
