-- ===== src/Booking/Pay.antt =====
-- What the successful branch of `completeTransaction` in backend/src/payments.controller.ts writes.
use ki_ticket.Base.{
  ℕ, suc, String, ◌≡◌, ◌≢◌, ◌⊎◌, refl, sym, ap, ◌∙◌, subst, Bool, false, Option, none, some, List,
  [], ◌∷◌, map, In, is_empty, arith, ◌==◌, ==_iff, inl, inr, Bool-cases, some_injective,
}
use ki_ticket.Database.{insert_all, save_all, get-save_found, update_if}
use ki_ticket.Entities.{
  Reservation, ReservationSeat, Payment, Ticket, SeatState, ReservationState, PaymentState,
}
use ki_ticket.World.{Repositories, Db}
use ki_ticket.Cancellation.{seats_of}
use ki_ticket.Payment.{Draws, booked, new_tickets}
use ki_ticket.Booking.Invariant.{IsConsistent, Agrees, Agrees-open, unpaid_not_confirmed}
use ki_ticket.Booking.Release.{Agrees-booked}

-- Each seat gets a ticket of the reservation,
pub tickets_of_seats :
    (draws : Draws) (id n : ℕ) (seats : List ReservationSeat) (s : ReservationSeat)
    → In s seats
    → (t : Ticket) × In t (new_tickets draws id n seats)
      × (t.reservation_id ≡ id)
      × (t.seat_id ≡ s.seat_id)
tickets_of_seats draws id n [] s m = elim m [ ]
tickets_of_seats draws id n (x ∷ xs) s (inl e) =
    (_, inl refl, refl, ap (λ (y : ReservationSeat). y.seat_id) (sym e))
tickets_of_seats draws id n (x ∷ xs) s (inr m) =
    let (t, k, a, b) = tickets_of_seats draws id (suc n) xs s m in (t, inr k, a, b)

-- and each ticket is for one of the seats.
pub seats_of_tickets :
    (draws : Draws) (id n : ℕ) (seats : List ReservationSeat) (t : Ticket)
    → In t (new_tickets draws id n seats)
    → (s : ReservationSeat) × In s seats × (t.reservation_id ≡ id) × (t.seat_id ≡ s.seat_id)
seats_of_tickets draws id n [] t m = elim m [ ]
seats_of_tickets draws id n (x ∷ xs) t (inl e) = (x, inl refl, rw e refl, rw e refl)
seats_of_tickets draws id n (x ∷ xs) t (inr m) =
    let (s, k, a, b) = seats_of_tickets draws id (suc n) xs t m in (s, inr k, a, b)

module _ (D : Repositories) (draws : Draws) (p : Payment) (r : Reservation)
    (reference : Option String) where
  abbrev pub settled : Reservation
  settled = record r { state = ReservationState.confirmed }

  abbrev pub paid_payment : Payment
  paid_payment = record p {
    state = PaymentState.success;
    reference = some (elim reference [ some given ↦ given | none ↦ draws.reference ]);
  }

  abbrev pub mine : ReservationSeat → Bool
  mine s = s.reservation_id == r.id

  -- What an issue that returns has written.
  pub record Issued (db db' : Db D) : Type 0 where
    pub reservations : D.reservations.Table
    pub seats : D.reservation_seats.Table
    pub tickets : D.tickets.Table
    pub payments : D.payments.Table
    pub reservation_there : D.reservations.get db.reservations r.id ≡ some r
    pub payment_there : D.payments.get db.payments p.id ≡ some p
    pub linked : p.reservation_id ≡ r.id
    pub unpaid : p.state ≡ PaymentState.pending
    pub has_seats : is_empty (seats_of D r.id db) ≡ false
    pub saved_seats :
        save_all D.reservation_seats (map booked (seats_of D r.id db)) db.reservation_seats
        ≡ some seats
    pub inserted :
        insert_all D.tickets (new_tickets draws r.id 0 (seats_of D r.id db)) db.tickets
        ≡ some tickets
    pub saved_reservation : D.reservations.save db.reservations settled ≡ some reservations
    pub saved_payment : D.payments.save db.payments paid_payment ≡ some payments
    pub after : db' ≡ record db {
      reservations = reservations;
      reservation_seats = seats;
      tickets = tickets;
      payments = payments;
    }

  module _ (db db' : Db D) (k : Issued db db') (c : IsConsistent D db) where
    first_seat :
        (rows : List ReservationSeat) → is_empty rows ≡ false → (s : ReservationSeat) × In s rows
    first_seat [] h = cc
    first_seat (s ∷ rows) h = (s, inl refl)

    -- A reservation with seats and a pending payment is pending.
    pub was_pending : r.state ≡ ReservationState.pending
    was_pending =
        let (s, m) = first_seat (seats_of D r.id db) k.has_seats in
        let (g, e) = D.reservation_seats.listed db.reservation_seats mine s m in
        let (x, gx, _, a) = c.held s.id s g in
        let equal : x ≡ r = some_injective (
          sym gx
          ∙ (ap (D.reservations.get db.reservations) ((==_iff s.reservation_id r.id).0 e)
              ∙ k.reservation_there)) in
        Agrees-open r.state s.state (subst (λ (y : Reservation). Agrees y.state s.state) equal a)
          (unpaid_not_confirmed D db p r c k.reservation_there k.payment_there k.linked k.unpaid)

    pub other_of_confirmed :
        (j : ℕ) (x : Reservation)
        → D.reservations.get db.reservations j ≡ some x
        → x.state ≡ ReservationState.confirmed
        → j ≢ r.id
    other_of_confirmed j x g e same =
        let equal : x ≡ r =
          some_injective
            (sym g ∙ (ap (D.reservations.get db.reservations) same ∙ k.reservation_there)) in
        cc (ap (λ (y : Reservation). y.state) equal, e, was_pending)

    pub other_of_booked :
        (i : ℕ) (s : ReservationSeat)
        → D.reservation_seats.get db.reservation_seats i ≡ some s
        → s.state ≡ SeatState.booked
        → s.reservation_id ≢ r.id
    other_of_booked i s g b =
        let (x, gx, _, a) = c.held i s g in
        other_of_confirmed s.reservation_id x gx (Agrees-booked x.state s.state a b)

    get_seat :
        (i : ℕ)
        → D.reservation_seats.get k.seats i
          ≡ update_if mine booked (D.reservation_seats.get db.reservation_seats i)
    get_seat i =
        get-save_found D.reservation_seats booked (λ s. refl) mine db.reservation_seats k.seats i
          k.saved_seats

    -- The row of a seat is one of the reservation's, now booked, or one as before.
    pub seat_cases :
        (i : ℕ) (s : ReservationSeat)
        → D.reservation_seats.get k.seats i ≡ some s
        → ((old : ReservationSeat) × (D.reservation_seats.get db.reservation_seats i ≡ some old)
            × (old.reservation_id ≡ r.id)
            × (s ≡ booked old))
          ⊎ ((D.reservation_seats.get db.reservation_seats i ≡ some s) × (s.reservation_id ≢ r.id))
    seat_cases i s g =
        cases (D.reservation_seats.get db.reservation_seats i) refl (sym (get_seat i) ∙ g)
      where
        cases :
            (o : Option ReservationSeat)
            → D.reservation_seats.get db.reservation_seats i ≡ o
            → update_if mine booked o ≡ some s
            → ((old : ReservationSeat) × (D.reservation_seats.get db.reservation_seats i ≡ some old)
                × (old.reservation_id ≡ r.id)
                × (s ≡ booked old))
              ⊎ ((D.reservation_seats.get db.reservation_seats i ≡ some s)
                  × (s.reservation_id ≢ r.id))
        cases none q h = cc
        cases (some x) q h = elim (Bool-cases (mine x)) [
          | inl m ↦
              inl (x, q, (==_iff x.reservation_id r.id).0 m, some_injective (sym h ∙ rw m refl))
          | inr m ↦
              let equal : x ≡ s = some_injective (sym (rw m refl) ∙ h) in
              inr (
                q ∙ ap some equal,
                λ e. ground (arith, ap (λ (y : ReservationSeat). y.reservation_id) equal),
              )
        ]

    pub seat_stays :
        (i : ℕ) (s : ReservationSeat)
        → D.reservation_seats.get db.reservation_seats i ≡ some s
        → s.reservation_id ≢ r.id
        → D.reservation_seats.get k.seats i ≡ some s
    seat_stays i s g d = get_seat i ∙ rw g (ground arith)

    pub seat_booked :
        (i : ℕ) (s : ReservationSeat)
        → D.reservation_seats.get db.reservation_seats i ≡ some s
        → s.reservation_id ≡ r.id
        → D.reservation_seats.get k.seats i ≡ some (booked s)
    seat_booked i s g e = get_seat i ∙ rw (g, e) (ground arith)

    pub settled_there : D.reservations.get k.reservations r.id ≡ some settled
    settled_there = ground (
      arith,
      D.reservations.get-save db.reservations settled k.reservations r.id k.saved_reservation,
    )

    pub other_reservation :
        (j : ℕ)
        → j ≢ r.id
        → D.reservations.get k.reservations j ≡ D.reservations.get db.reservations j
    other_reservation j d = ground (
      arith,
      D.reservations.get-save db.reservations settled k.reservations j k.saved_reservation,
    )

    pub paid_there : D.payments.get k.payments p.id ≡ some paid_payment
    paid_there =
        ground (arith, D.payments.get-save db.payments paid_payment k.payments p.id k.saved_payment)

    pub other_payment :
        (j : ℕ) → j ≢ p.id → D.payments.get k.payments j ≡ D.payments.get db.payments j
    other_payment j d =
        ground (arith, D.payments.get-save db.payments paid_payment k.payments j k.saved_payment)

    pub other_of_paid :
        (j : ℕ) (q : Payment)
        → D.payments.get db.payments j ≡ some q
        → q.state ≡ PaymentState.success
        → j ≢ p.id
    other_of_paid j q g z same =
        let equal : q ≡ p =
          some_injective (sym g ∙ (ap (D.payments.get db.payments) same ∙ k.payment_there)) in
        cc (ap (λ (y : Payment). y.state) equal, z, k.unpaid)
