-- ===== src/Booking/Close.antt =====
-- The transactions of `cancel` and of a round of `expire` in
-- backend/src/reservations.controller.ts keep the invariant.
use ki_ticket.Base.{
  ℕ, ◌≡◌, ◌≢◌, true, false, some, arith, ◌&&◌, ◌==◌, ==_iff, List, inl, inr, Option-cases,
}
use ki_ticket.Outcome.{ok}
use ki_ticket.Entities.{Reservation, ReservationSeat, ReservationState, reservation_pending}
use ki_ticket.World.{Repositories, Db, AuthenticatedUser}
use ki_ticket.Cancellation.{find_reservation, seats_of, not_owner, cancel_reservation}
use ki_ticket.Expiry.{expire_reservation}
use ki_ticket.Booking.Invariant.{IsConsistent}
use ki_ticket.Booking.Release.{moved, left_seats, release-IsConsistent}

pub pending_of_test :
    (st : ReservationState) → reservation_pending st ≡ true → st ≡ ReservationState.pending
pending_of_test st h = ground arith

module _ (D : Repositories) where
  -- A pending reservation becomes `st`, and its seats are removed.
  pub record Closed (st : ReservationState) (db db' : Db D) (r : Reservation) : Type 0 where
    pub table : D.reservations.Table
    pub there : D.reservations.get db.reservations r.id ≡ some r
    pub was_pending : r.state ≡ ReservationState.pending
    pub saved : D.reservations.save db.reservations (moved D db r st table) ≡ some table
    pub after :
        db' ≡ record db { reservations = table; reservation_seats = left_seats D db r st table }

  pub Closed-IsConsistent :
      (st : ReservationState) (db db' : Db D) (r : Reservation)
      → st ≢ ReservationState.confirmed
      → Closed st db db' r
      → IsConsistent D db
      → IsConsistent D db'
  Closed-IsConsistent st db db' r ends k c = rw k.after (
      release-IsConsistent D db r st k.table db.payments k.saved k.there
        (λ e. cc (e, k.was_pending)) ends (λ i p z g. g) (λ i p z g. g) c)

  module _ (user : AuthenticatedUser) (id : ℕ) where
    -- A cancellation that returns is of a pending reservation that the user owns or administers;
    -- the reservation becomes cancelled, its seat rows are removed, nothing else changes, and the
    -- result holds the reservation and the removed rows.
    pub cancel_ok :
        (db : Db D) (out : Reservation × List ReservationSeat)
        → (cancel_reservation D user id db).0 ≡ ok out
        → (r : Reservation) × Closed ReservationState.cancelled db
            (cancel_reservation D user id db).1
            r
          × (r.id ≡ id)
          × (not_owner r user ≡ false)
          × (out ≡ (record r { state = ReservationState.cancelled }, seats_of D r.id db))
    cancel_ok db out h = elim (Option-cases (find_reservation D id db)) [
      | inl e ↦ absurd (unfold cancel_reservation in ground arith)
      | inr (r, e) ↦ closed r e
    ]
      where
        closed :
            (r : Reservation)
            → find_reservation D id db ≡ some r
            → (r : Reservation) × Closed ReservationState.cancelled db
                (cancel_reservation D user id db).1
                r
              × (r.id ≡ id)
              × (not_owner r user ≡ false)
              × (out ≡ (record r { state = ReservationState.cancelled }, seats_of D r.id db))
        closed r e =
            let f = D.reservations.found db.reservations (λ x. x.id == id) r e in
            let same : r.id ≡ id = (==_iff r.id id).0 f.1 in
            elim (Option-cases (
              D.reservations.save db.reservations
                (record r { state = ReservationState.cancelled }))) [
                  | inl q ↦ absurd (unfold cancel_reservation in ground arith)
                  | inr (t, q) ↦ (
                    r,
                    record {
                      table = t;
                      there = f.0;
                      was_pending = unfold cancel_reservation in ground arith;
                      saved = q;
                      after = unfold cancel_reservation in rw same (ground arith);
                    },
                    same,
                    unfold cancel_reservation in ground arith,
                    unfold cancel_reservation in rw same (ground arith),
                  )
                ]

    pub cancel-IsConsistent :
        (db : Db D) (out : Reservation × List ReservationSeat)
        → IsConsistent D db
        → (cancel_reservation D user id db).0 ≡ ok out
        → IsConsistent D (cancel_reservation D user id db).1
    cancel-IsConsistent db out c h =
        let (r, k, _, _, _) = cancel_ok db out h in
        Closed-IsConsistent ReservationState.cancelled db (cancel_reservation D user id db).1 r
          (λ e. cc) k c

  -- A round of the sweep, on seats that were read when the reservation had the same ones.
  pub expire_ok :
      (id : ℕ) (seats : List ReservationSeat) (db : Db D)
      → seats ≡ seats_of D id db
      → (expire_reservation D id seats db).0 ≡ ok true
      → (r : Reservation) × Closed ReservationState.expired db
          (expire_reservation D id seats db).1
          r
        × (r.id ≡ id)
  expire_ok id seats db listed h =
      elim (Option-cases (
        D.reservations.find_one_by db.reservations
          (λ r. r.id == id && reservation_pending r.state))) [
            | inl e ↦ absurd (unfold expire_reservation in ground arith)
            | inr (r, e) ↦
                let f =
                  D.reservations.found db.reservations
                    (λ x. x.id == id && reservation_pending x.state) r e in
                let same : r.id ≡ id = ground arith in
                elim (Option-cases (
                  D.reservations.save db.reservations
                    (record r { state = ReservationState.expired }))) [
                      | inl q ↦ absurd (unfold expire_reservation in ground arith)
                      | inr (t, q) ↦ (
                        r,
                        record {
                          table = t;
                          there = f.0;
                          was_pending = ground arith;
                          saved = q;
                          after = rw listed (unfold expire_reservation in rw same (ground arith));
                        },
                        same,
                      )
                    ]
          ]

  pub expire_unaffected :
      (id : ℕ) (seats : List ReservationSeat) (db : Db D)
      → (expire_reservation D id seats db).0 ≡ ok false
      → (expire_reservation D id seats db).1 ≡ db
  unfolding expire_reservation
  expire_unaffected id seats db h = ground arith

  pub expire-IsConsistent :
      (id : ℕ) (seats : List ReservationSeat) (db : Db D)
      → seats ≡ seats_of D id db
      → IsConsistent D db
      → (expire_reservation D id seats db).0 ≡ ok true
      → IsConsistent D (expire_reservation D id seats db).1
  expire-IsConsistent id seats db listed c h =
      let (r, k, _) = expire_ok id seats db listed h in
      Closed-IsConsistent ReservationState.expired db (expire_reservation D id seats db).1 r
        (λ e. cc) k c
