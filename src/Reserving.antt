-- ===== src/Reserving.antt =====
-- `reserve` of frontend/src/components/EventPage.tsx, and how the page resumes it after a login:
-- the customer enters the waiting room, waits to be admitted, and reserves the selected seats. The
-- Persian messages stand in English.
pub mod Polling
use ki_ticket.Base.{
  ℕ, zero, suc, ◌+◌, ◌*◌, String, Bool, true, false, not, ◌&&◌, Option, none, some, List, [], ◌∷◌,
  ◌++◌, has, select, is_empty, leb, ◌==◌, if◌then◌else◌,
}
use ki_ticket.Entities.{WaitingRoomState, Reservation, is_queued, is_admitted}
use ki_ticket.EventPage.{Item}
use ki_ticket.Storage.{filled}
use ki_ticket.SeatMap.{refreshed, chosen, total_of}

-- What a call of `api` gives: a value, or an error with its message.
pub data Reply (A : Type 0) : Type 0 where
  got : A → Reply A
  refused : String → Reply A

-- `WaitingRoomEntry` of frontend/src/api.ts.
pub record Admission : Type 0 where
  pub id : ℕ
  pub position : ℕ
  pub state : WaitingRoomState
  pub admission_token : Option String

pub data Request : Type 0 where
  join : (event_id : ℕ) → Request
  status : (entry_id : ℕ) → Request
  reserve_seats : (event_id : ℕ) (seat_ids : List ℕ) → String → Request

pub data Act : Type 0 where
  sent : Request → Act
  waited : (milliseconds : ℕ) → Act

pub data Phase : Type 0 where
  view waiting reserving : Phase

pub data Place : Type 0 where
  stay : Place
  login : (return_to : ℕ) → Place
  checkout : (reservation_id : ℕ) → Place

-- The entry "narm-reservation" of the session storage.
pub record StoredReservation : Type 0 where
  pub reservation : Reservation
  pub event_title : Option String
  pub seats : List Item
  pub total : ℕ

-- `eventId` and `seatIds` of the entry "narm-pending-reservation".
pub record Pending : Type 0 where
  pub event_id : Option ℕ
  pub seat_ids : Option (List ℕ)

-- The state of the component, the entries that it keeps in the session storage, and where it
-- navigates.
pub record Page : Type 0 where
  pub selected : List ℕ
  pub phase : Phase
  pub queue_position : Option ℕ
  pub error : String
  pub pending : Option Pending
  pub stored : Option StoredReservation
  pub place : Place

-- `EventDetail`, as far as `reserve` reads it.
pub record Shown : Type 0 where
  pub title : String
  pub inventory : List Item

-- The replies of the server, `statuses` by the number of the poll, and whether the storage works:
-- for the pending reservation, for the reservation, and for the removal.
pub record Replies : Type 0 where
  pub joined : Reply Admission
  pub statuses : ℕ → Reply Admission
  pub reserved : Reply Reservation
  pub keeps_pending : Bool
  pub keeps_reservation : Bool
  pub removes : Bool

abbrev pub min : ℕ → ℕ → ℕ
min a b = if leb a b then a else b

abbrev pub pause : ℕ → ℕ
pause attempt = min 5000 (1500 + attempt * 100)

abbrev pub and_then : {A : Type 0} → List Act → Reply A × List Act → Reply A × List Act
and_then acts (reply, more) = (reply, acts ++ more)

abbrev pub on_reply :
    (Admission → Reply Admission × List Act) → Reply Admission → Reply Admission × List Act
on_reply go (refused message) = (refused message, [])
on_reply go (got next) = go next

-- The loop of the polls from `attempt` on, with `left` rounds left.
unfoldable pub poll :
    (ℕ → Reply Admission) → (left attempt : ℕ) → Admission → Reply Admission × List Act
poll statuses zero attempt admission = (got admission, [])
poll statuses (suc left) attempt admission =
    let rest = on_reply (poll statuses left (attempt + 1)) (statuses attempt) in
    if is_queued admission.state
    then and_then (waited (pause attempt) ∷ sent (status admission.id) ∷ []) rest
    else (got admission, [])

abbrev pub waited_too_long : String
waited_too_long = "The wait took too long; your place is kept"

abbrev pub storage_error : String
storage_error = "The storage is not available"

-- The `catch` of `reserve`.
abbrev pub caught : Page → String → Page
caught page message = record page { error = message; phase = Phase.view; queue_position = none }

-- `Number(reservation.totalAmount || total)`
abbrev pub total_or : ℕ → ℕ → ℕ
total_or amount total = if amount == 0 then total else amount

abbrev pub inventory_of : Option Shown → List Item
inventory_of none = []
inventory_of (some e) = e.inventory

abbrev pub title_of : Option Shown → Option String
title_of none = none
title_of (some e) = some e.title

abbrev pub stored_of : Option Shown → Page → List ℕ → Reservation → StoredReservation
stored_of event page seat_ids reservation = record {
  reservation = reservation;
  event_title = title_of event;
  seats = select (λ (s : Item). has s.seat_id seat_ids) (inventory_of event);
  total = total_or reservation.total_amount (total_of (chosen (inventory_of event) page.selected));
}

-- What follows the reply to the reservation request.
unfoldable pub finish : Replies → Option Shown → List ℕ → Page → Reply Reservation → Page
finish replies event seat_ids page (refused message) = caught page message
finish replies event seat_ids page (got reservation) =
    if replies.keeps_reservation
    then record page {
      stored = some (stored_of event page seat_ids reservation);
      pending = if replies.removes then none else page.pending;
      place = checkout reservation.id;
    }
    else caught page storage_error

-- A token that lets the page reserve.
abbrev pub token_of : Admission → Option String
token_of a = if is_admitted a.state then filled a.admission_token else none

abbrev pub reserve_with :
    Replies → ℕ → Option Shown → List ℕ → Page → Option String → Page × List Act
reserve_with replies event_id event seat_ids page none = (caught page waited_too_long, [])
reserve_with replies event_id event seat_ids page (some token) = (
  finish replies event seat_ids (record page { phase = Phase.reserving }) replies.reserved,
  sent (reserve_seats event_id seat_ids token) ∷ [],
)

-- What follows the last reply of the waiting room.
abbrev pub proceed : Replies → ℕ → Option Shown → List ℕ → Page → Reply Admission → Page × List Act
proceed replies event_id event seat_ids page (refused message) = (caught page message, [])
proceed replies event_id event seat_ids page (got a) =
    reserve_with replies event_id event seat_ids (record page { queue_position = some a.position })
      (token_of a)

abbrev pub begin_wait : Replies → Reply Admission → Reply Admission × List Act
begin_wait replies (refused message) = (refused message, [])
begin_wait replies (got a) = poll replies.statuses 60 0 a

-- `reserve`; `signed_in` is whether there is a session.
unfoldable pub reserve :
    Replies → (signed_in : Bool) → ℕ → Option Shown → List ℕ → Page → Page × List Act
unfolding poll finish
reserve replies false event_id event seat_ids page = (
  record page {
    pending =
        if replies.keeps_pending
        then some (record { event_id = some event_id; seat_ids = some seat_ids })
        else page.pending;
    place = login event_id;
  },
  [],
)
reserve replies true event_id event seat_ids page =
    let begun = record page { error = ""; phase = Phase.waiting } in
    let (reply, waits) = begin_wait replies replies.joined in
    let (last, acts) = proceed replies event_id event seat_ids begun reply in
    (last, sent (join event_id) ∷ waits ++ acts)

-- What the page finds under "narm-pending-reservation".
pub data Found : Type 0 where
  unreadable absent : Found
  found : Pending → Found

-- The seats of a pending reservation for this event.
abbrev pub seats_for : ℕ → Pending → Option (List ℕ)
seats_for event_id p = elim p.event_id [
  | none ↦ none
  | some id ↦ if id == event_id then p.seat_ids else none
]

-- The resumption of a reservation after a login: the seats with which `reserve` is called, and the
-- page. The removal, outside of any inner `try`, may throw.
abbrev pub resume_seats : Replies → Shown → Page → Option (List ℕ) → Option (List ℕ) × Page
resume_seats replies event page none = (none, page)
resume_seats replies event page (some seat_ids) =
    if is_empty (refreshed event.inventory seat_ids)
    then (
      none,
      if replies.removes
          then record page { error = "The selected seats were reserved meanwhile"; pending = none }
          else record page { error = "The reservation could not be resumed" },
    )
    else (
      some (refreshed event.inventory seat_ids),
      record page { selected = refreshed event.inventory seat_ids },
    )

unfoldable pub resume_reservation : Replies → ℕ → Shown → Page → Found → Option (List ℕ) × Page
unfolding refreshed
resume_reservation replies event_id event page unreadable =
    (none, record page { error = "The reservation could not be resumed" })
resume_reservation replies event_id event page absent = (none, page)
resume_reservation replies event_id event page (found p) =
    resume_seats replies event page (seats_for event_id p)
