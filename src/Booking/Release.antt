-- ===== src/Booking/Release.antt =====
-- A reservation that is not confirmed becomes cancelled or expired and gives its seats back: the
-- step that `cancel` and `expire` of backend/src/reservations.controller.ts and a failed payment of
-- backend/src/payments.controller.ts share.
use ki_ticket.Base.{
  ℕ, ◌≡◌, ◌≢◌, refl, sym, ap, ◌∙◌, subst, Bool, Option, none, some, arith, ◌==◌, ==_iff, inl, inr,
  Bool-cases, some_injective,
}
use ki_ticket.Database.{remove_all, get-remove_found, unless}
use ki_ticket.Entities.{
  Reservation, ReservationSeat, Payment, SeatState, ReservationState, PaymentState,
}
use ki_ticket.World.{Repositories, Db}
use ki_ticket.Cancellation.{seats_of}
use ki_ticket.Booking.Invariant.{IsConsistent, Agrees}

-- A booked seat's reservation is confirmed.
pub Agrees-booked :
    (st : ReservationState) (s : SeatState)
    → Agrees st s
    → s ≡ SeatState.booked
    → st ≡ ReservationState.confirmed
Agrees-booked ReservationState.pending SeatState.locked a e = cc
Agrees-booked ReservationState.confirmed s a e = refl
Agrees-booked ReservationState.pending SeatState.available a e = absurd a
Agrees-booked ReservationState.pending SeatState.booked a e = absurd a
Agrees-booked ReservationState.cancelled s a e = absurd a
Agrees-booked ReservationState.expired s a e = absurd a

module _ (D : Repositories) (db : Db D) (r : Reservation) (st : ReservationState)
    (t : D.reservations.Table) where
  abbrev pub moved : Reservation
  moved = record r { state = st }

  abbrev pub mine : ReservationSeat → Bool
  mine s = s.reservation_id == r.id

  abbrev pub left_seats : D.reservation_seats.Table
  left_seats = remove_all D.reservation_seats (seats_of D r.id db) db.reservation_seats

  pub moved_there :
      D.reservations.save db.reservations moved ≡ some t → D.reservations.get t r.id ≡ some moved
  moved_there saved = ground (arith, D.reservations.get-save db.reservations moved t r.id saved)

  pub others_there :
      (j : ℕ)
      → D.reservations.save db.reservations moved ≡ some t
      → j ≢ r.id
      → D.reservations.get t j ≡ D.reservations.get db.reservations j
  others_there j saved d = ground (arith, D.reservations.get-save db.reservations moved t j saved)

  pub seat_left :
      (i : ℕ) (s : ReservationSeat)
      → D.reservation_seats.get left_seats i ≡ some s
      → (D.reservation_seats.get db.reservation_seats i ≡ some s) × (s.reservation_id ≢ r.id)
  seat_left i s g =
      still (D.reservation_seats.get db.reservation_seats i) refl
        (sym (get-remove_found D.reservation_seats mine db.reservation_seats i) ∙ g)
    where
      still :
          (o : Option ReservationSeat)
          → D.reservation_seats.get db.reservation_seats i ≡ o
          → unless mine o ≡ some s
          → (D.reservation_seats.get db.reservation_seats i ≡ some s) × (s.reservation_id ≢ r.id)
      still none q h = cc
      still (some x) q h = elim (Bool-cases (mine x)) [
        | inl m ↦ absurd (ground arith)
        | inr m ↦
            let same : x ≡ s = some_injective (ground arith) in
            (
              q ∙ ap some same,
              λ e. ground (arith, ap (λ (y : ReservationSeat). y.reservation_id) same),
            )
      ]

  pub seat_stays :
      (i : ℕ) (s : ReservationSeat)
      → D.reservation_seats.get db.reservation_seats i ≡ some s
      → s.reservation_id ≢ r.id
      → D.reservation_seats.get left_seats i ≡ some s
  seat_stays i s g d =
      get-remove_found D.reservation_seats mine db.reservation_seats i ∙ rw g (ground arith)

  -- A confirmed reservation is another one.
  module _ (there : D.reservations.get db.reservations r.id ≡ some r)
      (open_yet : r.state ≢ ReservationState.confirmed) where
    pub other_of_confirmed :
        (j : ℕ) (x : Reservation)
        → D.reservations.get db.reservations j ≡ some x
        → x.state ≡ ReservationState.confirmed
        → j ≢ r.id
    other_of_confirmed j x g e same = open_yet (
        subst (λ (y : Reservation). y.state ≡ ReservationState.confirmed)
          (some_injective (sym g ∙ (ap (D.reservations.get db.reservations) same ∙ there))) e)

    pub other_of_booked :
        (i : ℕ) (s : ReservationSeat)
        → IsConsistent D db
        → D.reservation_seats.get db.reservation_seats i ≡ some s
        → s.state ≡ SeatState.booked
        → s.reservation_id ≢ r.id
    other_of_booked i s c g b =
        let (x, gx, ev, ag) = c.held i s g in
        other_of_confirmed s.reservation_id x gx (Agrees-booked x.state s.state ag b)

  -- The payments may change meanwhile, but for the successful ones.
  pub release-IsConsistent :
      (v : D.payments.Table)
      → D.reservations.save db.reservations moved ≡ some t
      → D.reservations.get db.reservations r.id ≡ some r
      → r.state ≢ ReservationState.confirmed
      → st ≢ ReservationState.confirmed
      → ((i : ℕ) (p : Payment)
          → p.state ≡ PaymentState.success
          → D.payments.get v i ≡ some p
          → D.payments.get db.payments i ≡ some p)
      → ((i : ℕ) (p : Payment)
          → p.state ≡ PaymentState.success
          → D.payments.get db.payments i ≡ some p
          → D.payments.get v i ≡ some p)
      → IsConsistent D db
      → IsConsistent D
          (record db { reservations = t; reservation_seats = left_seats; payments = v })
  release-IsConsistent v saved there open_yet ends back forth c = record {
    held = λ i s g.
        let (old, d) = seat_left i s g in
        let (x, gx, ev, ag) = c.held i s old in
        (x, others_there s.reservation_id saved d ∙ gx, ev, ag);
    sold = λ i k g.
        let (s, old, e, d, b) = c.sold i k g in
        (s, seat_stays s.id s old (other_of_booked there open_yet s.id s c old b), e, d, b);
    ticketed = λ i s g b. c.ticketed i s (seat_left i s g).0 b;
    paid = λ i x g e. elim (Bool-cases (i == r.id)) [
      | inl same ↦ absurd (
          ends (
            ap (λ (y : Reservation). y.state)
              (some_injective (
                sym (moved_there saved)
                ∙ (ap (D.reservations.get t) (sym ((==_iff i r.id).0 same)) ∙ g)))
            ∙ e))
      | inr differ ↦
          let (p, gp, q, z) =
            c.paid i x (sym (others_there i saved (λ q. ground (arith, (==_iff i r.id).1 q))) ∙ g)
              e in
          (p, forth p.id p z gp, q, z)
    ];
    confirmed = λ i p g e.
        let (x, gx, z) = c.confirmed i p (back i p e g) e in
        (
          x,
          others_there p.reservation_id saved
                (other_of_confirmed there open_yet p.reservation_id x gx z)
              ∙ gx,
          z,
        );
  }
