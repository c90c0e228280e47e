-- ===== src/Wallet.antt =====
-- The tickets that the web application keeps for a customer: the merge after a purchase
-- (frontend/src/components/Checkout.tsx), and the loading of the wallet
-- (frontend/src/components/Tickets.tsx).
pub mod Merge
pub mod Keeps
use ki_ticket.Base.{
  ℕ, suc, ◌+◌, String, Bool, true, false, not, Option, none, some, List, [], ◌∷◌, ◌++◌, any, find,
  select, map, ◌==◌, if◌then◌else◌,
}
use ki_ticket.Entities.{Ticket}
use ki_ticket.EventPage.{Item}
use ki_ticket.Reserving.{Reply, got, refused}

-- `StoredTicket` of frontend/src/api.ts. A label of a seat is the row and the number.
pub record StoredTicket : Type 0 where
  pub id : ℕ
  pub reservation_id : ℕ
  pub seat_id : ℕ
  pub issued_at : ℕ
  pub checked_in_at : Option ℕ
  pub qr_data_url : Option String
  pub event_title : Option String
  pub seat_label : Option (String × ℕ)

abbrev pub qr_of : Reply String → Option String
qr_of (got url) = some url
qr_of (refused message) = none

abbrev pub label_of : Option Item → Option (String × ℕ)
label_of none = none
label_of (some s) = some (s.row, s.number)

-- What `pay` stores of a ticket; `qr` is the reply to the request for its QR code.
abbrev pub stored_ticket :
    (qr : ℕ → Reply String) → Option String → List Item → Ticket → StoredTicket
stored_ticket qr title seats ticket = record {
  id = ticket.id;
  reservation_id = ticket.reservation_id;
  seat_id = ticket.seat_id;
  issued_at = ticket.issued_at;
  checked_in_at = ticket.checked_in_at;
  qr_data_url = qr_of (qr ticket.id);
  event_title = title;
  seat_label = label_of (find (λ s. s.seat_id == ticket.seat_id) seats);
}

abbrev pub has_ticket : ℕ → List StoredTicket → Bool
has_ticket id = any (λ (t : StoredTicket). t.id == id)

unfoldable pub merged : List StoredTicket → List StoredTicket → List StoredTicket
merged existing stored = select (λ t. not (has_ticket t.id stored)) existing ++ stored

-- The wallet in the local storage, which may be unreadable.
abbrev pub readable_wallet : Option (List StoredTicket) → List StoredTicket
readable_wallet none = []
readable_wallet (some tickets) = tickets

-- A ticket with its QR code, if the request for it succeeds.
abbrev pub enriched : (qr : ℕ → Reply String) → StoredTicket → StoredTicket
enriched qr ticket = elim (qr ticket.id) [
  | got url ↦ record ticket { qr_data_url = some url }
  | refused message ↦ ticket
]

abbrev pub failures : (qr : ℕ → Reply String) → List StoredTicket → ℕ
failures qr [] = 0
failures qr (t ∷ rest) = elim (qr t.id) [
  | got url ↦ failures qr rest
  | refused message ↦ suc (failures qr rest)
]

-- The state of the page: the tickets, the number of QR codes that did not come, the message of an
-- error, and the wallet in the local storage.
pub record TicketsPage : Type 0 where
  pub tickets : List StoredTicket
  pub qr_failures : ℕ
  pub error : String
  pub wallet : Option (List StoredTicket)

-- `load`, on a page that is still there when the replies come.
unfoldable pub load :
    Reply (List StoredTicket)
    → (qr : ℕ → Reply String) → (stores : Bool) → TicketsPage
    → TicketsPage
load (got remote) qr stores page = record {
  tickets = map (enriched qr) remote;
  qr_failures = failures qr remote;
  error = "";
  wallet = if stores then some (map (enriched qr) remote) else page.wallet;
}
load (refused message) qr stores page = record {
  tickets = readable_wallet page.wallet;
  qr_failures = 0;
  error = message;
  wallet = page.wallet;
}
