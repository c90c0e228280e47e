-- ===== src/Examples/Locks.antt =====
-- The locks and single transactions of the shop.
use ki_ticket.Base.{
  ℕ, ◌≡◌, refl, true, false, none, List, [], ◌∷◌, arith, inl, Distinct, ◌↔◌, if◌then◌else◌, ◌&&◌,
}
use ki_ticket.Outcome.{Result, ok}
use ki_ticket.Database.{list_repository, insert_all}
use ki_ticket.Redis.{memory, lock}
use ki_ticket.Lock.{Call, acquire, release, holds, any_exists, set_all, acquire_script}
use ki_ticket.Lock.Scripts.{locks_seat}
use ki_ticket.Lock.Exclusion.{contend, one_winner}
use ki_ticket.Lock.Atomicity.{acquire_ok_iff, AllFree, get-release}
use ki_ticket.Entities.{Reservation, ReservationSeat, ReservationState}
use ki_ticket.World.{Db}
use ki_ticket.Cancellation.{cancel_reservation, not_owner, seats_of}
use ki_ticket.Payment.{complete_transaction}
use ki_ticket.Booking.Close.{Closed, cancel_ok}
use ki_ticket.Booking.Conclude.{Completes, complete_cases}
use ki_ticket.Examples.Shop.{shop, ada, call, draws, pays}
use ki_ticket.Examples.Sales.{
  is_ok, returned, after_booking, after_start, completion, completion_returns,
}

abbrev free_store : memory.Store
unfolding memory
free_store = λ k. none

abbrev contenders : List (Call × ℕ)
contenders = (call 1000, 40) ∷ (call 1001, 41) ∷ (call 2000, 42) ∷ []

one_winner_example : contend memory 600 7 contenders (11 ∷ 12 ∷ []) free_store ≡ 1
one_winner_example =
    one_winner memory 600 7 (call 1000) 40 ((call 1001, 41) ∷ (call 2000, 42) ∷ []) (11 ∷ 12 ∷ [])
      11 free_store (omega arith) refl (inl refl) (λ m. ground (arith, m), (λ m. m, tt))
      (λ x m. unfold free_store memory in refl)
      (((omega arith), (omega arith)), ((omega arith, omega arith), tt))

acquire_ok_iff_example :
    ((acquire memory (call 1000) 600 7 (11 ∷ 11 ∷ []) 40 free_store).0 ≡ ok tt) ↔ (
      Distinct {A = ℕ} (11 ∷ 11 ∷ [])
      × AllFree memory (call 1000) 600 7 (11 ∷ 11 ∷ []) 40 free_store)
acquire_ok_iff_example = acquire_ok_iff memory (call 1000) 600 7 (11 ∷ 11 ∷ []) 40 free_store refl

taken : (acquire memory (call 1000) 600 7 (12 ∷ 11 ∷ []) 40 free_store).0 ≡ ok tt
unfolding acquire any_exists acquire_script set_all free_store memory
taken = refl

get-release_example :
    memory.get
      (release memory
        (call 2000)
        7
        (12 ∷ 11 ∷ [])
        41
        (acquire memory (call 1000) 600 7 (12 ∷ 11 ∷ []) 40 free_store).1).1
      3000
      (lock 7 11)
    ≡ (if locks_seat (lock 7 11) 7 (12 ∷ 11 ∷ [])
          && holds
              (memory.get
                (acquire memory (call 1000) 600 7 (12 ∷ 11 ∷ []) 40 free_store).1
                2000
                (lock 7 11))
              41
        then none
        else memory.get
            (acquire memory (call 1000) 600 7 (12 ∷ 11 ∷ []) 40 free_store).1
            3000
            (lock 7 11))
get-release_example =
    get-release memory (call 2000) 7 (12 ∷ 11 ∷ []) 41
      (acquire memory (call 1000) 600 7 (12 ∷ 11 ∷ []) 40 free_store).1 3000 (lock 7 11) refl
      (omega arith)

abbrev cancelling : Result (Reservation × List ReservationSeat) × Db shop
cancelling = cancel_reservation shop ada 40 after_booking

cancelling_returns : is_ok cancelling.0 ≡ true
unfolding cancel_reservation after_booking list_repository insert_all
cancelling_returns = refl

abbrev cancelled_seats : Reservation × List ReservationSeat
cancelled_seats = (returned cancelling.0 cancelling_returns).0

cancel_ok_example :
    (r : Reservation) × Closed shop ReservationState.cancelled after_booking cancelling.1 r
    × (r.id ≡ 40)
    × (not_owner r ada ≡ false)
    × (cancelled_seats
        ≡ (record r { state = ReservationState.cancelled }, seats_of shop r.id after_booking))
cancel_ok_example =
    cancel_ok shop ada 40 after_booking cancelled_seats (returned cancelling.0 cancelling_returns).1

complete_cases_example :
    Completes shop draws 2000 70 1 pays after_start
      (returned completion.0 completion_returns).0
      (complete_transaction shop 2000 draws 70 1 pays after_start).1
unfolding completion
complete_cases_example =
    complete_cases shop draws 2000 70 1 pays after_start
      (returned completion.0 completion_returns).0 (returned completion.0 completion_returns).1
