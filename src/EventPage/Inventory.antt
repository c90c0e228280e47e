-- ===== src/EventPage/Inventory.antt =====
-- The seats that `detail` of backend/src/catalog.controller.ts shows as available.
use ki_ticket.Base.{
  ℕ, ◌≡◌, ◌≢◌, ◌↔◌, refl, subst, ◌∙◌, none, some, List, [], ◌∷◌, arith, In, inl, inr, Option-cases,
  ◌==◌, ==_iff, some_injective,
}
use ki_ticket.Entities.{Seat, ReservationSeat, PricingCategory, SeatState, ReservationState}
use ki_ticket.World.{Repositories, Db}
use ki_ticket.Booking.Invariant.{IsConsistent, Agrees}
use ki_ticket.EventPage.{state_of, item, states_of}

state_of-In :
    (states : List ReservationSeat) (x : ℕ) (st : SeatState)
    → state_of states x ≡ some st
    → (s : ReservationSeat) × In s states × (s.seat_id ≡ x) × (s.state ≡ st)
state_of-In [] x st h = cc
state_of-In (s ∷ rest) x st h = elim (Option-cases (state_of rest x)) [
  | inr (q, k) ↦ let (r, m, e, f) = state_of-In rest x st (k ∙ ground arith) in (r, inr m, e, f)
  | inl k ↦ (s, inl refl, (==_iff s.seat_id x).0 (ground arith), some_injective (ground arith))
]

state_of-none :
    (states : List ReservationSeat) (x : ℕ) (s : ReservationSeat)
    → state_of states x ≡ none
    → In s states
    → s.seat_id ≢ x
state_of-none [] x s h m = absurd m
state_of-none (r ∷ rest) x s h (inl e) = elim (Option-cases (state_of rest x)) [
  | inr (q, k) ↦ absurd (ground arith)
  | inl k ↦ λ same. ground (arith, ==_iff r.seat_id x, e)
]
state_of-none (r ∷ rest) x s h (inr m) = elim (Option-cases (state_of rest x)) [
  | inr (q, k) ↦ absurd (ground arith)
  | inl k ↦ state_of-none rest x s k m
]

not_available : (st : ReservationState) → ¬ Agrees st SeatState.available
not_available ReservationState.pending a = a
not_available ReservationState.confirmed a = a
not_available ReservationState.cancelled a = a
not_available ReservationState.expired a = a

module _ (D : Repositories) (event_id : ℕ) (db : Db D) where
  -- Under the invariant of the bookings, the page of an event shows a seat as available exactly if
  -- no reservation holds the seat for the event.
  pub item-available :
      (pricing : List PricingCategory) (seat : Seat)
      → IsConsistent D db
      → ((item (states_of D event_id db) pricing seat).state ≡ SeatState.available) ↔ (
          (i : ℕ) (s : ReservationSeat)
          → D.reservation_seats.get db.reservation_seats i ≡ some s
          → s.event_id ≡ event_id
          → s.seat_id ≢ seat.id)
  unfolding item
  item-available pricing seat c = elim (Option-cases (state_of (states_of D event_id db) seat.id)) [
    | inl n ↦ rw n (
      λ h i s g e. state_of-none (states_of D event_id db) seat.id s n (
          D.reservation_seats.complete db.reservation_seats (λ x. x.event_id == event_id) i s g
            ((==_iff s.event_id event_id).1 e)),
      λ h. refl,
    )
    | inr (st, k) ↦
        let (s, m, e, f) = state_of-In (states_of D event_id db) seat.id st k in
        let (g, ev) =
          D.reservation_seats.listed db.reservation_seats (λ x. x.event_id == event_id) s m in
        let (r, there, same, agrees) = c.held s.id s g in
        rw k (
          λ h. absurd (not_available r.state (subst (Agrees r.state) (f ∙ h) agrees)),
          λ h. absurd (h s.id s g ((==_iff s.event_id event_id).0 ev) e),
        )
  ]
