-- ===== src/Examples/Sales.antt =====
-- A sale in the shop, step by step.
use ki_ticket.Base.{Bool, ◌≡◌, refl, true, false, [], ◌∷◌}
use ki_ticket.Outcome.{Result, ok, err}
use ki_ticket.Database.{list_repository, insert_all, save_all}
use ki_ticket.Entities.{SeatState, Reservation, ReservationSeat, Payment}
use ki_ticket.World.{Db}
use ki_ticket.Reservation.{book, new_reservation}
use ki_ticket.Payment.{new_payment, complete_transaction, PaymentResult, issue, conclude}
use ki_ticket.PaymentPolicy.{determine_payment_transition}
use ki_ticket.Booking.Invariant.{IsConsistent}
use ki_ticket.Booking.Steps.{
  Step, books, starts, completes, Reach, here, next, Reach-IsConsistent, Booked, Reach-Booked,
}
use ki_ticket.Examples.Shop.{shop, standard, opening, around, prices, draws, pays}

abbrev pub is_ok {ℓ} : {A : Type ℓ} → Result A → Bool
is_ok (ok a) = true
is_ok (err e) = false

-- The result of a run that is seen to return.
unfoldable pub returned {ℓ} : {A : Type ℓ} (r : Result A) → is_ok r ≡ true → (a : A) × (r ≡ ok a)
returned (ok a) h = (a, refl)
returned (err e) h = cc

abbrev first_booking : Reservation
first_booking = new_reservation (around 40 1000) 1 7 (standard ∷ []) prices (11 ∷ 12 ∷ [])

unfoldable pub after_booking : Db shop
unfolding book opening list_repository insert_all
after_booking = (book shop (around 40 1000) 1 7 (standard ∷ []) prices (11 ∷ 12 ∷ []) opening).1

booking_returns :
    (book shop (around 40 1000) 1 7 (standard ∷ []) prices (11 ∷ 12 ∷ []) opening).0
    ≡ ok first_booking
unfolding book opening list_repository insert_all
booking_returns = refl

-- The shop with no rows of bookings satisfies the invariant.
pub opening-IsConsistent : IsConsistent shop opening
unfolding opening list_repository
opening-IsConsistent = record {
  held = λ i s g. cc;
  sold = λ i t g. cc;
  ticketed = λ i s g b. cc;
  paid = λ i r g e. cc;
  confirmed = λ i p g e. cc;
}

books-Step : Step shop opening after_booking
unfolding after_booking
books-Step =
    books (around 40 1000) 1 7 (standard ∷ []) prices (11 ∷ 12 ∷ []) first_booking
      (unfold opening list_repository in refl) booking_returns

abbrev first_payment : Payment
first_payment = new_payment 70 first_booking "key-1"

unfoldable pub after_start : Db shop
unfolding after_booking opening list_repository book insert_all
after_start = record after_booking { payments = (first_payment ∷ [], refl) }

starts-Step : Step shop after_booking after_start
unfolding after_booking opening list_repository book insert_all after_start
starts-Step = starts 70 first_booking "key-1" (first_payment ∷ [], refl) refl

unfoldable pub completion : Result PaymentResult × Db shop
unfolding after_booking opening list_repository book insert_all after_start complete_transaction
    conclude issue save_all determine_payment_transition
completion = complete_transaction shop 2000 draws 70 1 pays after_start

pub completion_returns : is_ok completion.0 ≡ true
unfolding completion
completion_returns = refl

completes-Step : Step shop after_start completion.1
completes-Step =
    unfold completion in
    completes 2000 draws 70 1 pays (returned completion.0 completion_returns).0
      (returned completion.0 completion_returns).1

pub sale : Reach shop opening completion.1
sale = next (next (next here books-Step) starts-Step) completes-Step

Reach-IsConsistent_example : IsConsistent shop completion.1
Reach-IsConsistent_example = Reach-IsConsistent shop sale opening-IsConsistent

sold_seat : ReservationSeat
sold_seat = record {
  id = 4000;
  reservation_id = 40;
  event_id = 7;
  seat_id = 11;
  state = SeatState.booked;
  price = 250;
}

second_booking : Result Reservation × Db shop
unfolding completion after_booking opening list_repository book insert_all
second_booking =
    book shop (around 41 3000) 2 7 (standard ∷ []) ((13, 250) ∷ []) (13 ∷ []) completion.1

second_returns : is_ok second_booking.0 ≡ true
unfolding second_booking
second_returns = refl

second-Step : Step shop completion.1 second_booking.1
second-Step =
    unfold second_booking in
    books (around 41 3000) 2 7 (standard ∷ []) ((13, 250) ∷ []) (13 ∷ [])
      (returned second_booking.0 second_returns).0 (unfold completion list_repository in refl)
      (returned second_booking.0 second_returns).1

Reach-Booked_example : Booked shop second_booking.1 sold_seat
unfolding completion sold_seat
Reach-Booked_example =
    Reach-Booked shop sold_seat (next here second-Step)
      (Reach-IsConsistent shop sale opening-IsConsistent) (refl, refl)
