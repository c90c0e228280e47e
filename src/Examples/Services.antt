-- ===== src/Examples/Services.antt =====
-- The waiting room, the tickets and the catalog of the shop.
use ki_ticket.Base.{
  ℕ, ◌≡◌, ◌≢◌, ◌≤◌, ◌≡◌, refl, ap, true, none, some, List, [], ◌∷◌, arith, In, inl, inr, zero, suc,
  ◌↔◌, ◌==◌, Bool-cases, some_injective,
}
use ki_ticket.Outcome.{Result, ok}
use ki_ticket.Database.{list_repository, save_all}
use ki_ticket.Redis.{memory, sequence, number}
use ki_ticket.Entities.{
  Event, Ticket, Role, WaitingRoomEntry, WaitingRoomState, ReservationSeat, SeatState,
}
use ki_ticket.World.{Db, World, AuthenticatedUser}
use ki_ticket.Reservation.{bookable_event}
use ki_ticket.WaitingRoom.{assert_admission}
use ki_ticket.Queue.{Arrival, TokenDraw, Response, enter, admit, next_in_line}
use ki_ticket.Queue.Order.{next_in_line-first}
use ki_ticket.Queue.Admit.{Admitted, admit-Admitted}
use ki_ticket.Queue.Join.{enter-admission, enter_next}
use ki_ticket.Tickets.{approve, check_in}
use ki_ticket.Tickets.CheckIn.{CheckedIn, check_in-CheckedIn}
use ki_ticket.RowLabel.{row_label, label_from, letter}
use ki_ticket.RowLabel.Reading.{number_from, number-row_label}
use ki_ticket.Events.{UpdateEvent, update_event, publish, owned_event, validate_event_times}
use ki_ticket.Events.Times.{TimesAreValid}
use ki_ticket.Events.Edit.{updates, Edit-TimesAreValid}
use ki_ticket.EventPage.{item, states_of}
use ki_ticket.EventPage.Inventory.{item-available}
use ki_ticket.Booking.Steps.{Reach-IsConsistent}
use ki_ticket.Examples.Shop.{shop, opening, ada, call, seat, standard, concert}
use ki_ticket.Examples.Sales.{is_ok, returned, completion, sale, opening-IsConsistent}
use ki_ticket.Examples.Requests.{morning}

abbrev arrival : Arrival
arrival = record {
  event_at = 900;
  active_at = 900;
  counter = call 900;
  capacity = 100;
  draw = record { token = "token-1"; at = 900; ttl_seconds = 900 };
  id = 800;
  created_at = 900;
}

abbrev entering : Result WaitingRoomEntry × World shop memory
entering = enter shop memory arrival ada 7 morning

entering_returns : is_ok entering.0 ≡ true
unfolding enter morning opening list_repository memory bookable_event
entering_returns = refl

abbrev entry : WaitingRoomEntry
entry = (returned entering.0 entering_returns).0

enter_next_example :
    (entry.position ≡ suc (number (memory.get morning.store 900 (sequence 7))))
    × (memory.get entering.1.store 900 (sequence 7) ≡ some entry.position)
    × ((entry.state ≡ WaitingRoomState.admitted) ↔ (entry.position ≤ 100))
enter_next_example =
    enter_next shop memory arrival ada 7 morning entry (returned entering.0 entering_returns).1
      (unfold morning opening list_repository in refl)

entry_fields :
    (entry.state ≡ WaitingRoomState.admitted)
    × (entry.admission_token ≡ some "token-1")
    × (entry.token_expires_at ≡ some 900900)
unfolding enter morning opening list_repository memory bookable_event returned
entry_fields = (refl, refl, refl)

enter-admission_example :
    (assert_admission shop true 5000 7 1 (some "token-1") entering.1.db).0 ≡ ok tt
enter-admission_example =
    enter-admission shop memory arrival ada 7 morning entry "token-1" 5000 900900
      (returned entering.0 entering_returns).1 entry_fields.0 entry_fields.1 (λ e. cc)
      entry_fields.2 (omega arith)

abbrev waiting : ℕ → ℕ → WaitingRoomEntry
waiting id position = record {
  id = id;
  event_id = 7;
  user_id = id;
  position = position;
  state = WaitingRoomState.queued;
  admission_token = none;
  token_expires_at = none;
  created_at = position;
}

unfoldable line_db : Db shop
unfolding opening list_repository
line_db = record opening { entries = (waiting 3 30 ∷ waiting 1 10 ∷ waiting 2 20 ∷ [], refl) }

abbrev token_draws : ℕ → TokenDraw
token_draws n = elim n [
  | zero ↦ record { token = "a"; at = 1000; ttl_seconds = 900 }
  | suc k ↦ record { token = "b"; at = 1000; ttl_seconds = 900 }
]

third_waits : ¬ In (waiting 3 30) (next_in_line shop 7 2 line_db)
unfolding line_db opening list_repository
third_waits m = elim m [
  | inl e ↦ cc (ap (λ (x : WaitingRoomEntry). x.id == 1) e)
  | inr k ↦ elim k [ inl e ↦ cc (ap (λ (x : WaitingRoomEntry). x.id == 2) e) | inr j ↦ j ]
]

next_in_line-first_example : 10 ≤ 30
next_in_line-first_example =
    next_in_line-first shop 7 2 line_db 3 (waiting 1 10) (waiting 3 30)
      (unfold line_db list_repository in inl refl) (unfold line_db list_repository in refl) refl
      refl (unfold line_db list_repository in λ m. third_waits m)

abbrev admitting : Result (ℕ × List Response) × Db shop
admitting = admit shop token_draws 7 2 line_db

admitting_returns : is_ok admitting.0 ≡ true
unfolding admit line_db opening list_repository save_all
admitting_returns = refl

admit-Admitted_example :
    Admitted shop token_draws 7 2 line_db (returned admitting.0 admitting_returns).0 admitting.1
admit-Admitted_example =
    admit-Admitted shop token_draws 7 2 line_db (returned admitting.0 admitting_returns).0
      (returned admitting.0 admitting_returns).1

abbrev pub organizer : AuthenticatedUser
organizer = record { sub = 90; email = "org@example.org"; role = Role.organizer }

abbrev checking : Result Ticket × Db shop
checking = check_in shop 999000 organizer 500 completion.1

checking_returns : is_ok checking.0 ≡ true
unfolding check_in approve completion list_repository
checking_returns = refl

check_in-CheckedIn_example :
    CheckedIn shop 999000 organizer 500 completion.1
      (returned checking.0 checking_returns).0
      checking.1
check_in-CheckedIn_example =
    check_in-CheckedIn shop 999000 organizer 500 completion.1
      (returned checking.0 checking_returns).0 (returned checking.0 checking_returns).1

number-row_label_example : number_from 0 (row_label 27) ≡ 28
number-row_label_example = number-row_label 27

-- The twenty-eighth row is "AB".
row_label_test : row_label 27 ≡ "AB"
unfolding row_label label_from letter
row_label_test = refl

abbrev later_start : UpdateEvent
later_start = record {
  title = none;
  description = none;
  genre = none;
  city = none;
  tags = none;
  starts_at = some (some 2000000);
  ends_at = some (some 3000000);
}

abbrev updating : Result Event × Db shop
updating = update_event shop 1000 organizer 7 later_start opening

updating_returns : is_ok updating.0 ≡ true
unfolding update_event owned_event validate_event_times opening list_repository
updating_returns = refl

opening_times : TimesAreValid shop opening
unfolding opening list_repository
opening_times i e g = elim (Bool-cases (i == 7)) [
  | inl q ↦ let same : concert ≡ e = some_injective (ground arith) in rw (← same) tt
  | inr q ↦ absurd (ground arith)
]

Edit-TimesAreValid_example : TimesAreValid shop updating.1
Edit-TimesAreValid_example =
    Edit-TimesAreValid shop opening updating.1
      (updates 1000 organizer 7 later_start (returned updating.0 updating_returns).0
        (returned updating.0 updating_returns).1)
      opening_times

abbrev publishing : Result Event × Db shop
publishing = publish shop organizer 7 opening

publishing_returns : is_ok publishing.0 ≡ true
unfolding publish owned_event opening list_repository
publishing_returns = refl

item-available_example :
    ((item (states_of shop 7 completion.1) (standard ∷ []) (seat 13 3)).state ≡ SeatState.available)
    ↔ ((i : ℕ) (s : ReservationSeat)
        → shop.reservation_seats.get completion.1.reservation_seats i ≡ some s
        → s.event_id ≡ 7
        → s.seat_id ≢ 13)
item-available_example =
    item-available shop 7 completion.1 (standard ∷ []) (seat 13 3)
      (Reach-IsConsistent shop sale opening-IsConsistent)
