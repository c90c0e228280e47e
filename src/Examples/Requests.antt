-- ===== src/Examples/Requests.antt =====
-- Requests to the shop, with its locks and its messages.
use ki_ticket.Base.{◌≡◌, refl, true, false, none, some, [], ◌∷◌, arith, inl}
use ki_ticket.Outcome.{Result, ok, err, conflict}
use ki_ticket.Database.{list_repository, insert_all, save_all}
use ki_ticket.Redis.{memory}
use ki_ticket.Lock.{
  key, acquire, release, any_exists, set_all, acquire_script, release_key, release_all,
}
use ki_ticket.Entities.{Reservation, Payment}
use ki_ticket.World.{World}
use ki_ticket.WaitingRoom.{assert_admission}
use ki_ticket.Pricing.{price_seats, total_from}
use ki_ticket.Reservation.{
  CreateReservation, check_request, bookable_event, selected_seats, pricing_of, book, create,
}
use ki_ticket.Expiry.{expire}
use ki_ticket.Payment.{StartPayment, PaymentResult, complete_transaction, conclude, issue}
use ki_ticket.PaymentPolicy.{determine_payment_transition}
use ki_ticket.Checkout.{start, complete}
use ki_ticket.Booking.Service.{Runs, idle, handles, reserves, starts, completes, sweeps, Runs-Reach}
use ki_ticket.Booking.Ends.{create-Reserved, create-Untouched, create-Locked, Untouched}
use ki_ticket.Booking.Reserved.{Reserved}
use ki_ticket.Booking.Conclude.{Returns}
use ki_ticket.Booking.Steps.{Reach}
use ki_ticket.Booking.Repeat.{start_repeated}
use ki_ticket.Booking.Replay.{complete_repeated}
use ki_ticket.Examples.Shop.{shop, opening, ada, call, around, draws, pays}
use ki_ticket.Examples.Sales.{is_ok, returned}

unfoldable pub morning : World shop memory
unfolding memory
morning = record { db = opening; store = λ k. none; sent = [] }

abbrev pub two_seats : CreateReservation
two_seats = record { event_id = 7; seat_ids = 12 ∷ 11 ∷ []; admission_token = none }

abbrev pub reserving : Result Reservation × World shop memory
reserving = create shop memory (around 40 1000) ada two_seats morning

pub reserving_returns : is_ok reserving.0 ≡ true
unfolding any_exists set_all acquire_script release_key release_all morning create opening
    list_repository memory check_request bookable_event selected_seats pricing_of price_seats
    acquire release book insert_all assert_admission total_from
reserving_returns = refl

abbrev pub reservation : Reservation
reservation = (returned reserving.0 reserving_returns).0

create-Reserved_example :
    Reserved shop memory (around 40 1000) ada two_seats morning reservation reserving.1
create-Reserved_example =
    create-Reserved shop memory (around 40 1000) ada two_seats morning reservation
      (returned reserving.0 reserving_returns).1

create-Locked_example :
    memory.get reserving.1.store 5000 (key reservation.event_id 12) ≡ some reservation.id
create-Locked_example =
    create-Locked shop memory (around 40 1000) ada two_seats morning reservation 5000 12
      (omega arith) (omega arith) (omega arith) (inl refl)
      (returned reserving.0 reserving_returns).1

-- Later the locks have run out, but the rows are there: the request is rolled back.
abbrev again : Result Reservation × World shop memory
again = create shop memory (around 41 900000) ada two_seats reserving.1

again_throws : again.0 ≡ err (conflict "At least one selected seat is unavailable")
unfolding any_exists set_all acquire_script release_key release_all morning create opening
    list_repository memory check_request bookable_event selected_seats pricing_of price_seats
    acquire release book insert_all assert_admission total_from
again_throws = refl

create-Untouched_example :
    Untouched shop memory (around 41 900000) ada two_seats reserving.1 950000 again.1
create-Untouched_example =
    create-Untouched shop memory (around 41 900000) ada two_seats reserving.1 950000
      (conflict "At least one selected seat is unavailable") (omega arith) (omega arith)
      (omega arith) refl again_throws

abbrev start_body : StartPayment
start_body = record { reservation_id = 40; idempotency_key = "key-0001" }

abbrev starting : Result Payment × World shop memory
starting = start shop memory 2000 70 ada start_body reserving.1

starting_returns : is_ok starting.0 ≡ true
unfolding start any_exists set_all acquire_script release_key release_all morning create opening
    list_repository memory check_request bookable_event selected_seats pricing_of price_seats
    acquire release book insert_all assert_admission total_from
starting_returns = refl

start_key : (returned starting.0 starting_returns).0.idempotency_key ≡ some "key-0001"
unfolding start returned any_exists set_all acquire_script release_key release_all morning create
    opening list_repository memory check_request bookable_event selected_seats pricing_of
    price_seats acquire release book insert_all assert_admission total_from
start_key = refl

start_repeated_example :
    start shop memory 3000 71 ada start_body starting.1
    ≡ (ok (returned starting.0 starting_returns).0, starting.1)
start_repeated_example =
    start_repeated shop memory ada start_body 2000 70 3000 71 reserving.1
      (returned starting.0 starting_returns).0 (returned starting.0 starting_returns).1 start_key

abbrev pub completing : Result PaymentResult × World shop memory
completing = complete shop memory 2500 (call 2500) draws ada 70 pays starting.1

completing_returns : is_ok completing.0 ≡ true
unfolding start complete complete_transaction conclude issue save_all determine_payment_transition
    any_exists set_all acquire_script release_key release_all morning create opening list_repository
    memory check_request bookable_event selected_seats pricing_of price_seats acquire release book
    insert_all assert_admission total_from
completing_returns = refl

abbrev receipt : PaymentResult
receipt = (returned completing.0 completing_returns).0

complete_repeated_example :
    (once_more : PaymentResult) × (complete shop memory 2600
        (call 2600)
        draws
        ada
        70
        pays
        completing.1
      ≡ (ok once_more, completing.1))
    × Returns once_more false receipt.payment receipt.reservation
complete_repeated_example =
    complete_repeated shop memory ada 70 2500 2600 (call 2500) (call 2600) draws draws pays pays
      starting.1 receipt (returned completing.0 completing_returns).1

-- A reservation, its payment with a completion, and a sweep.
day : Runs shop memory morning (expire shop memory 700000 call completing.1).1
day =
    handles
      (handles
        (handles
          (handles idle (
            reserves (around 40 1000) ada two_seats
              (unfold morning opening list_repository in refl)))
          (starts 2000 70 ada start_body))
        (completes 2500 (call 2500) draws ada 70 pays))
      (sweeps 700000 call)

Runs-Reach_example : Reach shop morning.db (expire shop memory 700000 call completing.1).1.db
Runs-Reach_example = Runs-Reach shop memory day
