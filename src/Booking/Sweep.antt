-- ===== src/Booking/Sweep.antt =====
-- The expiry sweep of backend/src/reservations.controller.ts refines the step system: its rounds are
-- steps, in their order.
use ki_ticket.Base.{ℕ, suc, ◌+◌, ◌≡◌, Bool, true, false, List, [], ◌∷◌, arith, inl, inr}
use ki_ticket.Outcome.{Exception, Result, ok, err, Result-cases}
use ki_ticket.Redis.{Redis}
use ki_ticket.Lock.{Call}
use ki_ticket.Entities.{Reservation}
use ki_ticket.World.{Repositories, Db, World}
use ki_ticket.Cancellation.{seats_of}
use ki_ticket.Expiry.{expire_reservation, expire_one, expire_all, expire, tell_expired, stale}
use ki_ticket.Booking.Close.{expire_unaffected}
use ki_ticket.Booking.Steps.{expires, Reach, here, next}

pub Reach-trans : (D : Repositories) (a b c : Db D) → Reach D a b → Reach D b c → Reach D a c
Reach-trans D a b c first here = first
Reach-trans D a b c first (next {middle} before step) =
    next (Reach-trans D a b middle first before) step

module _ (D : Repositories) (R : Redis) (w : World D R) (call : Call) (r : Reservation) where
  abbrev round : Result Bool × Db D
  round = expire_reservation D r.id (seats_of D r.id w.db) w.db

  pub expired_db : round.0 ≡ ok true → (expire_one D R call r w).1.db ≡ round.1
  unfolding expire_one tell_expired
  expired_db h = ground arith

  pub kept_db : round.0 ≡ ok false → (expire_one D R call r w).1.db ≡ w.db
  unfolding expire_one tell_expired
  kept_db h = ground (arith, expire_unaffected D r.id (seats_of D r.id w.db) w.db h)

  pub failed_db : (e : Exception) → round.0 ≡ err e → (expire_one D R call r w).1.db ≡ w.db
  unfolding expire_one tell_expired
  failed_db e h = ground arith

  expire_one-Reach : Reach D w.db (expire_one D R call r w).1.db
  expire_one-Reach = elim (Result-cases round.0) [
    | inl (true, h) ↦ rw (expired_db h) (next here (expires r.id h))
    | inl (false, h) ↦ rw (kept_db h) here
    | inr (e, h) ↦ rw (failed_db e h) here
  ]

module _ (D : Repositories) (R : Redis) where
  expire_all-Reach :
      (calls : ℕ → Call) (n sum : ℕ) (rows : List Reservation) (w : World D R)
      → Reach D w.db (expire_all D R calls n sum rows w).1.db
  unfolding expire_all
  expire_all-Reach calls n sum [] w = here
  expire_all-Reach calls n sum (r ∷ rest) w = elim (Result-cases (expire_one D R (calls n) r w).0) [
    | inl (more, h) ↦ rw h (
        Reach-trans D w.db (expire_one D R (calls n) r w).1.db
          (expire_all D R calls (suc n) (sum + more) rest (expire_one D R (calls n) r w).1).1.db
          (expire_one-Reach D R w (calls n) r)
          (expire_all-Reach calls (suc n) (sum + more) rest (expire_one D R (calls n) r w).1))
    | inr (e, h) ↦ rw h (expire_one-Reach D R w (calls n) r)
  ]

  -- Whatever the sweep finds, its run changes the tables by steps of the system only.
  pub expire-Reach :
      (now : ℕ) (calls : ℕ → Call) (w : World D R) → Reach D w.db (expire D R now calls w).1.db
  unfolding expire
  expire-Reach now calls w = expire_all-Reach calls 0 0 (stale D now w.db) w
