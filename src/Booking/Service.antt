-- ===== src/Booking/Service.antt =====
-- The running service: any number of requests to the endpoints of
-- backend/src/reservations.controller.ts and backend/src/payments.controller.ts, and rounds of the
-- expiry sweep, one after the other.
use ki_ticket.Base.{ℕ, ◌≡◌, none}
use ki_ticket.Redis.{Redis}
use ki_ticket.Lock.{Call}
use ki_ticket.World.{Repositories, World, AuthenticatedUser}
use ki_ticket.Reservation.{Surroundings, CreateReservation, create}
use ki_ticket.Cancellation.{cancel}
use ki_ticket.Expiry.{expire}
use ki_ticket.Payment.{Draws, CompletePayment, StartPayment}
use ki_ticket.Checkout.{start, complete}
use ki_ticket.Booking.Steps.{Reach, here}
use ki_ticket.Booking.Requests.{create-Reach, cancel-Reach, start-Reach, complete-Reach}
use ki_ticket.Booking.Sweep.{expire-Reach, Reach-trans}

module _ (D : Repositories) (R : Redis) where
  -- A request that is handled, whatever its outcome, or a run of the sweep.
  pub data Handled (w : World D R) : World D R → Type 0 where
    reserves :
        (around : Surroundings) (user : AuthenticatedUser) (body : CreateReservation)
        → D.reservations.get w.db.reservations around.id ≡ none
        → Handled w (create D R around user body w).1
    cancels :
        (call : Call) (user : AuthenticatedUser) (id : ℕ) → Handled w (cancel D R call user id w).1
    starts :
        (now id : ℕ) (user : AuthenticatedUser) (body : StartPayment)
        → Handled w (start D R now id user body w).1
    completes :
        (now : ℕ) (call : Call) (draws : Draws) (user : AuthenticatedUser) (id : ℕ)
        (body : CompletePayment)
        → Handled w (complete D R now call draws user id body w).1
    sweeps : (now : ℕ) (calls : ℕ → Call) → Handled w (expire D R now calls w).1

  pub data Runs (w : World D R) : World D R → Type 0 where
    idle : Runs w w
    handles : {v x : World D R} → Runs w v → Handled v x → Runs w x

  Handled-Reach : {w v : World D R} → Handled w v → Reach D w.db v.db
  Handled-Reach {w} (reserves around user body fresh) = create-Reach D R w around user body fresh
  Handled-Reach {w} (cancels call user id) = cancel-Reach D R w call user id
  Handled-Reach {w} (starts now id user body) = start-Reach D R w now id user body
  Handled-Reach {w} (completes now call draws user id body) =
      complete-Reach D R w now call draws user id body
  Handled-Reach {w} (sweeps now calls) = expire-Reach D R now calls w

  -- The endpoints and the sweep refine the step system: whatever requests are handled one after the
  -- other, whatever their outcomes, each reservation under an id that no reservation has, the
  -- tables change by steps of the system only.
  pub Runs-Reach : {w v : World D R} → Runs w v → Reach D w.db v.db
  Runs-Reach idle = here
  Runs-Reach {w} (handles {v} {x} before last) =
      Reach-trans D w.db v.db x.db (Runs-Reach before) (Handled-Reach last)
