-- ===== src/Booking/Issue.antt =====
-- The successful branch of `completeTransaction` in backend/src/payments.controller.ts keeps the
-- invariant.
use ki_ticket.Base.{
  ℕ, String, ◌≡◌, ◌≢◌, refl, sym, ap, ◌∙◌, Option, some, arith, ◌==◌, ==_iff, inl, inr, Bool-cases,
  some_injective,
}
use ki_ticket.Database.{get-insert_all_old, get-insert_all_new, insert_all_cases}
use ki_ticket.Entities.{
  Reservation, ReservationSeat, Payment, Ticket, SeatState, ReservationState, PaymentState,
}
use ki_ticket.World.{Repositories, Db}
use ki_ticket.Cancellation.{seats_of}
use ki_ticket.Payment.{Draws, booked, new_tickets}
use ki_ticket.Booking.Invariant.{IsConsistent, Held, Sold, Ticketed, Paid, Confirmed}
use ki_ticket.Booking.Pay.{
  Issued, settled, paid_payment, mine, other_of_confirmed, other_of_booked, seat_cases, seat_stays,
  seat_booked, settled_there, other_reservation, paid_there, other_payment, other_of_paid,
  tickets_of_seats, seats_of_tickets,
}

module _ (D : Repositories) (draws : Draws) (p : Payment) (r : Reservation)
    (reference : Option String) (db db' : Db D) (k : Issued D draws p r reference db db')
    (c : IsConsistent D db) where
  abbrev written : Db D
  written = record db {
    reservations = k.reservations;
    reservation_seats = k.seats;
    tickets = k.tickets;
    payments = k.payments;
  }

  held_after :
      (i : ℕ) (s : ReservationSeat) → D.reservation_seats.get k.seats i ≡ some s → Held D written s
  held_after i s g = elim (seat_cases D draws p r reference db db' k c i s g) [
    | inl (old, go, e, q) ↦
        let (x, gx, ev, a) = c.held i old go in
        let equal : x ≡ r =
          some_injective
            (sym gx ∙ (ap (D.reservations.get db.reservations) e ∙ k.reservation_there)) in
        (
          settled D draws p r reference,
          ap (D.reservations.get k.reservations)
                (ap (λ (y : ReservationSeat). y.reservation_id) q ∙ e)
              ∙ settled_there D draws p r reference db db' k c,
          ap (λ (y : ReservationSeat). y.event_id) q
              ∙ (ev ∙ ap (λ (y : Reservation). y.event_id) equal),
          rw q tt,
        )
    | inr (go, d) ↦
        let (x, gx, ev, a) = c.held i s go in
        (x, other_reservation D draws p r reference db db' k c s.reservation_id d ∙ gx, ev, a)
  ]

  Sold-after : (i : ℕ) (t : Ticket) → D.tickets.get k.tickets i ≡ some t → Sold D written t
  Sold-after i t g =
      elim (insert_all_cases D.tickets (new_tickets draws r.id 0 (seats_of D r.id db)) db.tickets
        k.tickets i t k.inserted g) [
          | inl old ↦
              let (s, gs, a, b, z) = c.sold i t old in
              (
                s,
                seat_stays D draws p r reference db db' k c s.id s gs
                    (other_of_booked D draws p r reference db db' k c s.id s gs z),
                a,
                b,
                z,
              )
          | inr new ↦
              let (s, m, a, b) = seats_of_tickets draws r.id 0 (seats_of D r.id db) t new in
              let (gs, e) =
                D.reservation_seats.listed db.reservation_seats (mine D draws p r reference) s m in
              let mine_too : s.reservation_id ≡ r.id = (==_iff s.reservation_id r.id).0 e in
              (
                booked s,
                seat_booked D draws p r reference db db' k c s.id s gs mine_too,
                mine_too ∙ sym a,
                sym b,
                refl,
              )
        ]

  Ticketed-after :
      (i : ℕ) (s : ReservationSeat)
      → D.reservation_seats.get k.seats i ≡ some s
      → s.state ≡ SeatState.booked
      → Ticketed D written s
  Ticketed-after i s g z = elim (seat_cases D draws p r reference db db' k c i s g) [
    | inl (old, go, e, q) ↦
        let m =
          D.reservation_seats.complete db.reservation_seats (mine D draws p r reference) i old go
            ((==_iff old.reservation_id r.id).1 e) in
        let (t, n, a, b) = tickets_of_seats draws r.id 0 (seats_of D r.id db) old m in
        (
          t,
          get-insert_all_new D.tickets (new_tickets draws r.id 0 (seats_of D r.id db)) db.tickets
              k.tickets t k.inserted n,
          a ∙ sym (ap (λ (y : ReservationSeat). y.reservation_id) q ∙ e),
          b ∙ sym (ap (λ (y : ReservationSeat). y.seat_id) q),
        )
    | inr (go, d) ↦
        let (t, gt, a, b) = c.ticketed i s go z in
        (
          t,
          get-insert_all_old D.tickets (new_tickets draws r.id 0 (seats_of D r.id db)) db.tickets
              k.tickets t.id t k.inserted gt,
          a,
          b,
        )
  ]

  Paid-after :
      (i : ℕ) (x : Reservation)
      → D.reservations.get k.reservations i ≡ some x
      → x.state ≡ ReservationState.confirmed
      → Paid D written i
  Paid-after i x g e = elim (Bool-cases (i == r.id)) [
    | inl same ↦ (
      paid_payment D draws p r reference,
      paid_there D draws p r reference db db' k c,
      k.linked ∙ sym ((==_iff i r.id).0 same),
      refl,
    )
    | inr differ ↦
        let d : i ≢ r.id = λ q. ground (arith, (==_iff i r.id).1 q) in
        let (q, gq, l, z) =
          c.paid i x (sym (other_reservation D draws p r reference db db' k c i d) ∙ g) e in
        (
          q,
          other_payment D draws p r reference db db' k c q.id
                (other_of_paid D draws p r reference db db' k c q.id q gq z)
              ∙ gq,
          l,
          z,
        )
  ]

  Confirmed-after :
      (i : ℕ) (q : Payment)
      → D.payments.get k.payments i ≡ some q
      → q.state ≡ PaymentState.success
      → Confirmed D written q.reservation_id
  Confirmed-after i q g z = elim (Bool-cases (i == p.id)) [
    | inl same ↦
        let equal : paid_payment D draws p r reference ≡ q = some_injective (
          sym (paid_there D draws p r reference db db' k c)
          ∙ (ap (D.payments.get k.payments) (sym ((==_iff i p.id).0 same)) ∙ g)) in
        (
          settled D draws p r reference,
          ap (D.reservations.get k.reservations)
                (sym (ap (λ (y : Payment). y.reservation_id) equal) ∙ k.linked)
              ∙ settled_there D draws p r reference db db' k c,
          refl,
        )
    | inr differ ↦
        let d : i ≢ p.id = λ e. ground (arith, (==_iff i p.id).1 e) in
        let (x, gx, e) =
          c.confirmed i q (sym (other_payment D draws p r reference db db' k c i d) ∙ g) z in
        (
          x,
          other_reservation D draws p r reference db db' k c q.reservation_id
                (other_of_confirmed D draws p r reference db db' k c q.reservation_id x gx e)
              ∙ gx,
          e,
        )
  ]

  pub Issued-IsConsistent : IsConsistent D db'
  Issued-IsConsistent = rw k.after (record {
    held = held_after;
    sold = Sold-after;
    ticketed = Ticketed-after;
    paid = Paid-after;
    confirmed = Confirmed-after;
  })
