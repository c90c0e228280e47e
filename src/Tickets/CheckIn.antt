-- ===== src/Tickets/CheckIn.antt =====
-- A check-in by itself: who may, and what it does (backend/src/tickets.controller.ts).
use ki_ticket.Base.{
  ℕ, String, ◌≡◌, ◌⊎◌, ◌↔◌, refl, sym, ap, ◌∙◌, true, false, not, ◌&&◌, Option, none, some, arith,
  inl, inr, Option-cases, Bool-cases, ◌==◌, ==_iff, str_eq, eq_iff,
}
use ki_ticket.Outcome.{
  Exception, duplicate_key, entity_not_found, forbidden, Result, ok, err, ok_injective,
}
use ki_ticket.Database.{find_by_key}
use ki_ticket.Entities.{Ticket, Reservation, Event, Role, is_admin}
use ki_ticket.World.{Repositories, Db, AuthenticatedUser}
use ki_ticket.Cancellation.{find_reservation}
use ki_ticket.Tickets.{find_ticket, is_set, save_ticket, approve, check_in, verify}

admin_of_test : (r : Role) → is_admin r ≡ true → r ≡ Role.admin
admin_of_test r h = ground arith

unset_of_test : (o : Option ℕ) → is_set o ≡ false → o ≡ none
unset_of_test o h = ground arith

module _ (D : Repositories) where
  -- A check-in that returns, of a ticket `t` for an event.
  pub record CheckedIn (now : ℕ) (user : AuthenticatedUser) (id : ℕ) (db : Db D) (out : Ticket)
      (db' : Db D) : Type 0 where
    pub before : Ticket
    pub reservation : Reservation
    pub event : Event
    pub table : D.tickets.Table
    pub there : D.tickets.get db.tickets id ≡ some before
    pub linked : D.reservations.get db.reservations before.reservation_id ≡ some reservation
    pub happening : D.events.get db.events reservation.event_id ≡ some event
    pub allowed : (user.role ≡ Role.admin) ⊎ (event.organizer_id ≡ user.sub)
    pub unused : before.checked_in_at ≡ none
    pub result : out ≡ record before { checked_in_at = some now }
    pub saved : D.tickets.save db.tickets out ≡ some table
    pub after : db' ≡ record db { tickets = table }

  module _ (now : ℕ) (user : AuthenticatedUser) (id : ℕ) (db : Db D) (out : Ticket) where
    at_event :
        (t : Ticket) (r : Reservation) (e : Event)
        → (check_in D now user id db).0 ≡ ok out
        → find_ticket D id db ≡ some t
        → find_reservation D t.reservation_id db ≡ some r
        → D.events.find_one_by db.events (λ x. x.id == r.event_id) ≡ some e
        → ((not (is_admin user.role) && not (e.organizer_id == user.sub)) ≡ false)
          × (is_set t.checked_in_at ≡ false)
          × (check_in D now user id db ≡ save_ticket D (record t { checked_in_at = some now }) db)
    unfolding check_in approve
    at_event t r e h f l g =
        elim (Bool-cases (not (is_admin user.role) && not (e.organizer_id == user.sub))) [
          | inl q ↦ absurd (ground arith)
          | inr q ↦ elim (Bool-cases (is_set t.checked_in_at)) [
            | inl k ↦ absurd (ground arith)
            | inr k ↦ (q, k, rw (f, l, g, q, k) refl)
          ]
        ]

    allowed_of_test :
        (e : Event)
        → (not (is_admin user.role) && not (e.organizer_id == user.sub)) ≡ false
        → (user.role ≡ Role.admin) ⊎ (e.organizer_id ≡ user.sub)
    allowed_of_test e h = elim (Bool-cases (is_admin user.role)) [
      | inl a ↦ inl (admin_of_test user.role a)
      | inr n ↦ inr ((==_iff e.organizer_id user.sub).0 (ground arith))
    ]

    CheckedIn-at_event :
        (t : Ticket) (r : Reservation) (e : Event)
        → (check_in D now user id db).0 ≡ ok out
        → find_ticket D id db ≡ some t
        → find_reservation D t.reservation_id db ≡ some r
        → D.events.find_one_by db.events (λ x. x.id == r.event_id) ≡ some e
        → CheckedIn now user id db out (check_in D now user id db).1
    CheckedIn-at_event t r e h f l g =
        let (may, free, runs) = at_event t r e h f l g in
        let (gt, kt) = D.tickets.found db.tickets (λ x. x.id == id) t f in
        let (gr, kr) = D.reservations.found db.reservations (λ x. x.id == t.reservation_id) r l in
        let (ge, ke) = D.events.found db.events (λ x. x.id == r.event_id) e g in
        let stamped : Ticket = record t { checked_in_at = some now } in
        elim (Option-cases (D.tickets.save db.tickets stamped)) [
          | inl n ↦
              absurd (cc (h, ap (λ (x : Result Ticket × Db D). x.0) runs, save_none stamped n))
          | inr (table, s) ↦
              let same : out ≡ stamped = ok_injective (
                sym h
                ∙ (ap (λ (x : Result Ticket × Db D). x.0) runs
                    ∙ ap (λ (x : Result Ticket × Db D). x.0) (save_some stamped table s))) in
              record {
                before = t;
                reservation = r;
                event = e;
                table = table;
                there = ap (D.tickets.get db.tickets) (sym ((==_iff t.id id).0 kt)) ∙ gt;
                linked =
                    ap (D.reservations.get db.reservations)
                      (sym ((==_iff r.id t.reservation_id).0 kr))
                    ∙ gr;
                happening = ap (D.events.get db.events) (sym ((==_iff e.id r.event_id).0 ke)) ∙ ge;
                allowed = allowed_of_test e may;
                unused = unset_of_test t.checked_in_at free;
                result = same;
                saved = ap (D.tickets.save db.tickets) same ∙ s;
                after =
                    ap (λ (x : Result Ticket × Db D). x.1) runs
                    ∙ ap (λ (x : Result Ticket × Db D). x.1) (save_some stamped table s);
              }
        ]
      where
        save_none :
            (t : Ticket)
            → D.tickets.save db.tickets t ≡ none
            → (save_ticket D t db).0 ≡ err duplicate_key
        save_none t n = rw (n, save_ticket) refl

        save_some :
            (t : Ticket) (table : D.tickets.Table)
            → D.tickets.save db.tickets t ≡ some table
            → save_ticket D t db ≡ (ok t, record db { tickets = table })
        save_some t table n = rw (n, save_ticket) refl

    -- A check-in that returns, with no other request between its tests and its save, is by an admin
    -- or by the organizer of the ticket's event, of a ticket that was not checked in, and stamps
    -- that ticket.
    pub check_in-CheckedIn :
        (check_in D now user id db).0 ≡ ok out
        → CheckedIn now user id db out (check_in D now user id db).1
    unfolding check_in approve
    check_in-CheckedIn h = elim (Option-cases (find_ticket D id db)) [
      | inl n ↦ absurd (ground arith)
      | inr (t, f) ↦ elim (Option-cases (find_reservation D t.reservation_id db)) [
        | inl n ↦ absurd (ground arith)
        | inr (r, l) ↦
            elim (Option-cases (D.events.find_one_by db.events (λ x. x.id == r.event_id))) [
              | inl n ↦ absurd (ground arith)
              | inr (e, g) ↦ CheckedIn-at_event t r e h f l g
            ]
      ]
    ]

  pub used_fails :
      (now : ℕ) (user : AuthenticatedUser) (id : ℕ) (db : Db D) (t : Ticket)
      → find_ticket D id db ≡ some t
      → is_set t.checked_in_at ≡ true
      → (e : Exception) × (approve D now user id db ≡ (err e, db))
  unfolding approve
  used_fails now user id db t f used =
      elim (Option-cases (find_reservation D t.reservation_id db)) [
        | inl n ↦ (entity_not_found, rw (f, n) refl)
        | inr (r, l) ↦
            elim (Option-cases (D.events.find_one_by db.events (λ x. x.id == r.event_id))) [
              | inl n ↦ (entity_not_found, rw (f, l, n) refl)
              | inr (e, g) ↦
                  elim (Bool-cases (not (is_admin user.role) && not (e.organizer_id == user.sub))) [
                    | inl q ↦
                        (forbidden "Ticket belongs to another organizer", rw (f, l, g, q) refl)
                    | inr q ↦
                        (forbidden "Ticket was already checked in", rw (f, l, g, q, used) refl)
                  ]
            ]
      ]

  check_in_refused :
      (now : ℕ) (user : AuthenticatedUser) (id : ℕ) (db : Db D) (e : Exception)
      → approve D now user id db ≡ (err e, db)
      → check_in D now user id db ≡ (err e, db)
  unfolding check_in
  check_in_refused now user id db e h = rw h refl

  -- A check-in that begins after another one of the ticket has ended throws and changes nothing.
  pub check_in_once :
      (now now' : ℕ) (user user' : AuthenticatedUser) (id : ℕ) (db : Db D) (out : Ticket)
      → (check_in D now user id db).0 ≡ ok out
      → (e : Exception) × (check_in D now' user' id (check_in D now user id db).1
          ≡ (err e, (check_in D now user id db).1))
  check_in_once now now' user user' id db out h =
      let k = check_in-CheckedIn now user id db out h in
      let named : out.id ≡ id =
        ap (λ (x : Ticket). x.id) k.result ∙ D.tickets.key-get db.tickets id k.before k.there in
      let there : D.tickets.get k.table id ≡ some out =
        ground (arith, D.tickets.get-save db.tickets out k.table id k.saved, ==_iff id out.id) in
      let found : find_ticket D id (record db { tickets = k.table }) ≡ some out =
        find_by_key D.tickets k.table (λ x. x.id == id) id out there ((==_iff out.id id).1 named)
          (λ x. (==_iff x.id id).0) in
      let used : is_set out.checked_in_at ≡ true =
        ap (λ (x : Ticket). is_set x.checked_in_at) k.result in
      let (e, refused) =
        used_fails now' user' id (record db { tickets = k.table }) out found used in
      rw k.after (e, check_in_refused now' user' id (record db { tickets = k.table }) e refused)

  -- The verification of a token succeeds exactly if a ticket with the hash of the token is stored.
  pub verify_iff :
      (sha256 : String → String) (token : String) (db : Db D)
      → ((verify D sha256 token db).valid ≡ true)
        ↔ ((t : Ticket) × (D.tickets.get db.tickets t.id ≡ some t) × (t.qr_hash ≡ sha256 token))
  unfolding verify
  verify_iff sha256 token db =
      elim (Option-cases
        (D.tickets.find_one_by db.tickets (λ t. str_eq t.qr_hash (sha256 token)))) [
          | inl n ↦ rw n (
            λ h. cc,
            λ (t, g, q). cc (
              D.tickets.missing db.tickets (λ x. str_eq x.qr_hash (sha256 token)) t.id t n g,
              (eq_iff t.qr_hash (sha256 token)).1 q,
            ),
          )
          | inr (t, f) ↦
              let (g, q) = D.tickets.found db.tickets (λ x. str_eq x.qr_hash (sha256 token)) t f in
              rw f (λ h. (t, g, (eq_iff t.qr_hash (sha256 token)).0 q), λ h. refl)
        ]
