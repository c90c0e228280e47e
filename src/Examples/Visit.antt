-- ===== src/Examples/Visit.antt =====
-- A visit to the web application: a selection, the waiting room, a reservation and its payment.
use ki_ticket.Base.{
  ℕ, String, ◌≡◌, ◌↔◌, ◌⊎◌, ◌≤◌, zero, suc, refl, true, false, none, some, Option, List, [], ◌∷◌,
  arith, In, inl, eq_iff, if◌then◌else◌,
}
use ki_ticket.Entities.{
  SeatState, WaitingRoomState, Reservation, ReservationState, Payment, PaymentState, Ticket,
}
use ki_ticket.PaymentPolicy.{PaymentOutcome}
use ki_ticket.Json.{text}
use ki_ticket.EventPage.{Item}
use ki_ticket.Client.{get, response, Answer, Call, api}
use ki_ticket.Client.Retry.{api_lem, meaning, resends, count_requests, tells_expiry, refuses}
use ki_ticket.Storage.{Storage}
use ki_ticket.IdempotencyKey.{Tab, Draw, idempotency_key}
use ki_ticket.IdempotencyKey.Again.{key_again_iff}
use ki_ticket.SeatMap.{offers, toggle}
use ki_ticket.SeatMap.Selection.{View, click, Reach, here, next, Acceptable, Reach-Acceptable}
use ki_ticket.Reserving.{
  got, refused, Admission, sent, reserve_seats, Phase, Place, checkout, Page, Shown, Replies,
  StoredReservation, reserve,
}
use ki_ticket.Reserving.Polling.{
  count_statuses, count_reservations, waiting_time, reserve_bounds, reserve-checkout, Waits,
}
use ki_ticket.Paying.{start_payment, CheckoutPage, Completion, pay}
use ki_ticket.Paying
use ki_ticket.Paying.Paid.{first, Unfinished, Finished, pay_again}
use ki_ticket.Wallet.Keeps.{Keeps}

-- The first answer is a transient error, the second is good.
abbrev flaky : ℕ → Answer
flaky zero = response 503 ""
flaky (suc n) = response 200 "[]"

abbrev listing : Call
listing = record {
  parse = λ s. some (text s);
  shown = λ v. "";
  fetch = flaky;
  base = "/api";
  path = "/events";
  options = record { method = get; headers = []; content = none };
  token = none;
}

api_lem_example :
    ((api listing).0 ≡ meaning listing (listing.fetch (if resends listing then 1 else 0)))
    × (count_requests (api listing).1 ≡ (if resends listing then 2 else 1))
    × (tells_expiry (api listing).1
        ≡ refuses listing (listing.fetch (if resends listing then 1 else 0)))
api_lem_example = api_lem listing

sends_twice : count_requests (api listing).1 ≡ 2
unfolding api
sends_twice = refl

abbrev empty_storage : Storage
empty_storage key = none

abbrev new_tab : Tab
new_tab = record { session = empty_storage; volatile = empty_storage }

-- A storage that can be read and is full.
abbrev full : Draw
full = record { readable = true; writable = false; random = "r1" }

abbrev working : Draw
working = record { readable = true; writable = true; random = "r2" }

key_again_iff_example :
    ((idempotency_key working "40" (idempotency_key full "40" new_tab).1).0
      ≡ (idempotency_key full "40" new_tab).0)
    ↔ ((full.writable ≡ true) ⊎ (working.readable ≡ false))
key_again_iff_example = key_again_iff full working "40" new_tab refl refl (λ e. different e)
  where
    different : ◌≡◌ {A = String} "r1" "r2" → ⊥
    different e = let same = (eq_iff "r1" "r2").1 e in cc

abbrev seat_item : ℕ → SeatState → Item
seat_item id state = record {
  seat_id = id;
  sector_id = 5;
  row = "A";
  number = id;
  accessible = false;
  state = state;
  price = 250;
  currency = "IRR";
}

abbrev inventory : List Item
inventory = seat_item 11 SeatState.available ∷ seat_item 12 SeatState.available ∷ []

abbrev before : View
before = record { inventory = inventory; selected = [] }

abbrev after : View
after = record { inventory = inventory; selected = toggle 11 [] }

clicks : Reach before after
clicks = next here (click before (seat_item 11 SeatState.available) (inl refl) refl)

Reach-Acceptable_example :
    Acceptable (toggle 11 []) × ((x : ℕ) → In x (toggle 11 []) → offers inventory x ≡ true)
Reach-Acceptable_example =
    Reach-Acceptable before after true true refl clicks (unfold toggle in refl)

abbrev entry : WaitingRoomState → Option String → Admission
entry state token = record { id = 70; position = 101; state = state; admission_token = token }

abbrev reservation : Reservation
reservation = record {
  id = 40;
  user_id = 1;
  event_id = 7;
  state = ReservationState.pending;
  expires_at = 700000;
  total_amount = 250;
  currency = "IRR";
}

-- Queued at first, and admitted at the first poll.
abbrev replies : Replies
replies = record {
  joined = got (entry WaitingRoomState.queued none);
  statuses = λ n. got (entry WaitingRoomState.admitted (some "token"));
  reserved = got reservation;
  keeps_pending = true;
  keeps_reservation = true;
  removes = true;
}

abbrev shown : Option Shown
shown = some (record { title = "Concert"; inventory = inventory })

abbrev page : Page
page = record {
  selected = 11 ∷ [];
  phase = Phase.view;
  queue_position = none;
  error = "";
  pending = none;
  stored = none;
  place = Place.stay;
}

reserve_bounds_example :
    (count_statuses (reserve replies true 7 shown (11 ∷ []) page).1 ≤ 60)
    × (count_reservations (reserve replies true 7 shown (11 ∷ []) page).1 ≤ 1)
    × (waiting_time (reserve replies true 7 shown (11 ∷ []) page).1 ≤ 300000)
reserve_bounds_example = reserve_bounds replies true 7 shown (11 ∷ []) page

waits :
    Waits replies.statuses 1 0
      (entry WaitingRoomState.queued none)
      (entry WaitingRoomState.admitted (some "token"))
waits = (refl, (entry WaitingRoomState.admitted (some "token"), refl, refl))

reserve-checkout_example :
    ((reserve replies true 7 shown (11 ∷ []) page).0.place ≡ checkout 40)
    × In (sent (reserve_seats 7 (11 ∷ []) "token")) (reserve replies true 7 shown (11 ∷ []) page).1
reserve-checkout_example =
    reserve-checkout replies 7 shown (11 ∷ []) page 1 (entry WaitingRoomState.queued none)
      (entry WaitingRoomState.admitted (some "token")) "token" reservation refl waits (omega arith)
      refl refl refl

abbrev kept : StoredReservation
kept = record {
  reservation = reservation;
  event_title = some "Concert";
  seats = inventory;
  total = 250;
}

abbrev checkout_page : CheckoutPage
checkout_page = record {
  outcome = PaymentOutcome.success;
  loading = false;
  terminal = false;
  error = "";
  reservation = kept;
  tab = new_tab;
  wallet = some [];
  stored = some kept;
  place = Paying.Place.stay;
}

abbrev payment : PaymentState → Payment
payment state = record {
  id = 80;
  reservation_id = 40;
  idempotency_key = none;
  state = state;
  amount = 250;
  currency = "IRR";
  reference = none;
  failure_reason = none;
}

abbrev ticket : Ticket
ticket = record {
  id = 500;
  reservation_id = 40;
  seat_id = 11;
  token = "t0";
  qr_hash = "t0";
  checked_in_at = none;
  issued_at = 500;
}

abbrev completion : Completion
completion = record { payment = payment PaymentState.success; tickets = ticket ∷ [] }

-- The connection breaks at the start, or all goes well.
abbrev broken_start : Paying.Replies
broken_start = record {
  started = refused "The server cannot be reached";
  completed = refused "";
  qr = λ n. got "qr";
  cancelled = refused "";
  draw = record { readable = true; writable = true; random = "r1" };
  id_text = λ n. "40";
  keeps_wallet = true;
  removes = true;
}

abbrev good : Paying.Replies
good = record broken_start {
  started = got (payment PaymentState.pending);
  completed = got completion;
  draw = working;
}

pay_again_example :
    (Unfinished broken_start
      × ((key : String) × (first (pay broken_start 40 checkout_page).1
            ≡ some (start_payment 40 key))
          × (first (pay good 40 (pay broken_start 40 checkout_page).0).1
              ≡ some (start_payment 40 key))))
    ⊎ (Finished broken_start × ((pay good 40 (pay broken_start 40 checkout_page).0).1 ≡ []))
pay_again_example = pay_again broken_start 40 checkout_page good refl (refl, refl) (refl, refl) refl
