-- ===== src/Wallet/Keeps.antt =====
-- What the wallet keeps of a ticket that was bought.
use ki_ticket.Base.{
  ℕ, String, ◌≡◌, ◌≢◌, refl, ◌⊎◌, inl, inr, In, find, find-In, find-none, Option-cases, ◌==◌,
  ==_iff, arith, some, none,
}
use ki_ticket.Entities.{Ticket}
use ki_ticket.EventPage.{Item}
use ki_ticket.Reserving.{Reply, got, refused, StoredReservation}
use ki_ticket.Wallet.{StoredTicket, stored_ticket, qr_of}

-- What the wallet keeps of a ticket: the fields of the ticket, the title of the event, the label of
-- its seat, if the reservation lists it, and the QR code, if the server gave it.
pub record Keeps (qr : ℕ → Reply String) (r : StoredReservation) (t : Ticket) (s : StoredTicket)
    : Type 0 where
  pub ticket :
      (s.id ≡ t.id)
      × (s.reservation_id ≡ t.reservation_id)
      × (s.seat_id ≡ t.seat_id)
      × (s.issued_at ≡ t.issued_at)
      × (s.checked_in_at ≡ t.checked_in_at)
  pub title : s.event_title ≡ r.event_title
  pub label :
      ((seat : Item) × In seat r.seats
        × (seat.seat_id ≡ t.seat_id)
        × (s.seat_label ≡ some (seat.row, seat.number)))
      ⊎ ((s.seat_label ≡ none) × ((seat : Item) → In seat r.seats → seat.seat_id ≢ t.seat_id))
  pub code :
      ((url : String) × (qr t.id ≡ got url) × (s.qr_data_url ≡ some url))
      ⊎ ((m : String) × (qr t.id ≡ refused m) × (s.qr_data_url ≡ none))

pub stored_ticket-Keeps :
    (qr : ℕ → Reply String) (r : StoredReservation) (t : Ticket)
    → Keeps qr r t (stored_ticket qr r.event_title r.seats t)
stored_ticket-Keeps qr r t = record {
  ticket = (refl, refl, refl, refl, refl);
  title = refl;
  label = elim (Option-cases (find (λ (s : Item). s.seat_id == t.seat_id) r.seats)) [
    | inr (seat, e) ↦
        let (m, q) = find-In (λ (s : Item). s.seat_id == t.seat_id) r.seats seat e in
        inl (seat, m, (==_iff seat.seat_id t.seat_id).0 q, rw e refl)
    | inl e ↦ inr (
      rw e refl,
      λ seat m same.
          let q = find-none (λ (s : Item). s.seat_id == t.seat_id) r.seats seat e m in
          absurd (ground (arith, ==_iff seat.seat_id t.seat_id)),
    )
  ];
  code = by_reply (qr t.id) refl;
}
  where
    by_reply :
        (reply : Reply String)
        → qr t.id ≡ reply
        → ((url : String) × (qr t.id ≡ got url) × (qr_of (qr t.id) ≡ some url))
          ⊎ ((m : String) × (qr t.id ≡ refused m) × (qr_of (qr t.id) ≡ none))
    by_reply (got url) e = inl (url, e, rw e refl)
    by_reply (refused m) e = inr (m, e, rw e refl)
