-- ===== src/Tickets.antt =====
-- `TicketsController` of backend/src/tickets.controller.ts: the tickets of a reservation, the QR code,
-- the verification and the check-in.
pub mod CheckIn
pub mod Overlap
use ki_ticket.Base.{ℕ, String, Bool, true, false, not, ◌&&◌, Option, none, some, List, ◌==◌, str_eq}
use ki_ticket.Outcome.{
  Exec, Result, ok, err, forbidden, not_found, entity_not_found, duplicate_key, raise_if, require,
  pure, gets, ◌>>=◌, ◌>>◌,
}
use ki_ticket.Entities.{Ticket, Reservation, Event, is_admin}
use ki_ticket.World.{Repositories, Db, AuthenticatedUser}
use ki_ticket.Cancellation.{find_reservation, not_owner}

-- The answer of `verify`: the ticket's id, seat and stamp of issue, if there is one.
pub record Verification : Type 0 where
  pub valid : Bool
  pub checked_in : Bool
  pub ticket : Option (ℕ × ℕ × ℕ)

abbrev pub is_set : Option ℕ → Bool
is_set none = false
is_set (some t) = true

abbrev pub verification : Option Ticket → Verification
verification none = record { valid = false; checked_in = false; ticket = none }
verification (some t) = record {
  valid = true;
  checked_in = is_set t.checked_in_at;
  ticket = some (t.id, t.seat_id, t.issued_at);
}

module _ (D : Repositories) where
  abbrev pub find_ticket : ℕ → Db D → Option Ticket
  find_ticket id db = D.tickets.find_one_by db.tickets (λ t. t.id == id)

  unfoldable pub by_reservation : AuthenticatedUser → ℕ → Exec (Db D) (List Ticket)
  by_reservation user reservation_id = do
    found ← gets (find_reservation D reservation_id)
    reservation ← require found (not_found "Reservation not found")
    raise_if (not_owner reservation user) (forbidden "Forbidden")
    gets (λ db. D.tickets.find_by db.tickets (λ t. t.reservation_id == reservation_id))

  -- The ticket whose QR code `qr` draws.
  unfoldable pub qr : AuthenticatedUser → ℕ → Exec (Db D) Ticket
  qr user id = do
    found ← gets (find_ticket id)
    ticket ← require found (not_found "Ticket not found")
    linked ← gets (find_reservation D ticket.reservation_id)
    reservation ← require linked entity_not_found
    raise_if (not_owner reservation user) (forbidden "Forbidden")
    pure ticket

  -- `sha256` is the hash of the `crypto` package.
  unfoldable pub verify : (String → String) → String → Db D → Verification
  verify sha256 token db =
      verification (D.tickets.find_one_by db.tickets (λ t. str_eq t.qr_hash (sha256 token)))

  abbrev pub save_ticket : Ticket → Exec (Db D) Ticket
  save_ticket t db = elim (D.tickets.save db.tickets t) [
    | none ↦ (err duplicate_key, db)
    | some table ↦ (ok t, record db { tickets = table })
  ]

  -- The reads and the tests of `checkIn`, up to the stamp. No transaction and no lock joins them to
  -- the save, so that other requests run in between.
  unfoldable pub approve : ℕ → AuthenticatedUser → ℕ → Exec (Db D) Ticket
  approve now user id = do
    found ← gets (find_ticket id)
    ticket ← require found (not_found "Ticket not found")
    linked ← gets (find_reservation D ticket.reservation_id)
    reservation ← require linked entity_not_found
    happening ← gets (λ db. D.events.find_one_by db.events (λ e. e.id == reservation.event_id))
    event ← require happening entity_not_found
    raise_if (not (is_admin user.role) && not (event.organizer_id == user.sub))
        (forbidden "Ticket belongs to another organizer")
    raise_if (is_set ticket.checked_in_at) (forbidden "Ticket was already checked in")
    pure (record ticket { checked_in_at = some now })

  -- `checkIn`, when no other request runs in between.
  unfoldable pub check_in : ℕ → AuthenticatedUser → ℕ → Exec (Db D) Ticket
  unfolding approve
  check_in now user id = do stamped ← approve now user id; save_ticket stamped
