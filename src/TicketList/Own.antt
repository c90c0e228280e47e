-- ===== src/TicketList/Own.antt =====
-- The list of tickets is complete, and shows nobody else's.
use ki_ticket.Base.{
  ℕ, ◌≡◌, ◌↔◌, refl, sym, ap, subst, ◌∙◌, true, some, List, [], ◌∷◌, In, In-map, In-of_map, In-has,
  has-In, map, find, find-In, find-none, has, unique, has-unique, In-sort_by, Option-cases, inl,
  inr, ◌==◌, ==_iff, is_empty, if◌then◌else◌, Bool-cases,
}
use ki_ticket.Entities.{Ticket, Reservation, Event}
use ki_ticket.World.{Repositories, Db, AuthenticatedUser}
use ki_ticket.TicketList.{
  ListedTicket, issued_after, listed_ticket, event_of, title_of, reservations_of, reservation_ids,
  tickets_of, events_of, seats_of, list_tickets,
}

abbrev ticket_of : ListedTicket → Ticket
ticket_of l = l.ticket

module _ (D : Repositories) (user : AuthenticatedUser) (db : Db D) where
  -- A stored ticket of a reservation of the user, with the event of that.
  pub record IsOwn (l : ListedTicket) : Type 0 where
    pub reservation : Reservation
    pub stored : D.tickets.get db.tickets l.ticket.id ≡ some l.ticket
    pub reserved : D.reservations.get db.reservations l.ticket.reservation_id ≡ some reservation
    pub owner : reservation.user_id ≡ user.sub
    pub titled :
        (e : Event)
        → D.events.get db.events reservation.event_id ≡ some e
        → l.event_title ≡ some e.title

  In-tickets_of :
      (t : Ticket)
      → In t (tickets_of D user db) ↔ (
          (D.tickets.get db.tickets t.id ≡ some t)
          × (has t.reservation_id (reservation_ids D user db) ≡ true))
  In-tickets_of t =
      let test = λ (x : Ticket). has x.reservation_id (reservation_ids D user db) in
      let sorted = In-sort_by issued_after t (D.tickets.find_by db.tickets test) in
      (
        λ m. D.tickets.listed db.tickets test t (sorted.0 m),
        λ h. sorted.1 (D.tickets.complete db.tickets test t.id t h.0 h.1),
      )

  -- The ids of the reservations
  of_reservation :
      (id : ℕ)
      → has id (reservation_ids D user db) ≡ true
      → (r : Reservation) × (D.reservations.get db.reservations id ≡ some r)
        × (r.user_id ≡ user.sub)
  of_reservation id h =
      let (r, m, same) =
        In-of_map (λ (r : Reservation). r.id) id (reservations_of D user db)
          (has-In id (reservation_ids D user db) h) in
      let (g, p) = D.reservations.listed db.reservations (λ r. r.user_id == user.sub) r m in
      (r, rw same g, (==_iff r.user_id user.sub).0 p)

  reservation_of :
      (id : ℕ) (r : Reservation)
      → D.reservations.get db.reservations id ≡ some r
      → r.user_id ≡ user.sub
      → In r (reservations_of D user db)
  reservation_of id r g own =
      D.reservations.complete db.reservations (λ r. r.user_id == user.sub) id r g
        ((==_iff r.user_id user.sub).1 own)

  abbrev row : Ticket → ListedTicket
  row = listed_ticket (reservations_of D user db) (events_of D user db) (seats_of D user db)

  -- The maps by id give the row of an id.
  found_reservation :
      (id : ℕ) (r : Reservation)
      → D.reservations.get db.reservations id ≡ some r
      → r.user_id ≡ user.sub
      → find (λ (x : Reservation). x.id == id) (reservations_of D user db) ≡ some r
  found_reservation id r g own =
      elim (Option-cases (find (λ (x : Reservation). x.id == id) (reservations_of D user db))) [
        | inl n ↦
            let none_here =
              find-none (λ (x : Reservation). x.id == id) (reservations_of D user db) r n
                (reservation_of id r g own) in
            let here = (==_iff r.id id).1 (D.reservations.key-get db.reservations id r g) in
            absurd (cc (none_here, here))
        | inr (x, k) ↦
            let (m, e) =
              find-In (λ (x : Reservation). x.id == id) (reservations_of D user db) x k in
            let (g', p) = D.reservations.listed db.reservations (λ r. r.user_id == user.sub) x m in
            k ∙ (sym g' ∙ ap (D.reservations.get db.reservations) ((==_iff x.id id).0 e) ∙ g)
      ]

  found_event :
      (r : Reservation) (e : Event)
      → In r (reservations_of D user db)
      → D.events.get db.events r.event_id ≡ some e
      → event_of (events_of D user db) (some r) ≡ some e
  found_event r e m g =
      let ids = map (λ (x : Reservation). x.event_id) (reservations_of D user db) in
      let named : has e.id (unique ids) ≡ true =
        has-unique e.id ids
        ∙ In-has e.id ids (
            subst (λ i. In i ids) (sym (D.events.key-get db.events r.event_id e g))
              (In-map (λ (x : Reservation). x.event_id) r (reservations_of D user db) m)) in
      let there : In e (events_of D user db) =
        D.events.complete db.events (λ x. has x.id (unique ids)) r.event_id e g named in
      elim (Option-cases (find (λ (x : Event). x.id == r.event_id) (events_of D user db))) [
        | inl n ↦
            let none_here =
              find-none (λ (x : Event). x.id == r.event_id) (events_of D user db) e n there in
            let here = (==_iff e.id r.event_id).1 (D.events.key-get db.events r.event_id e g) in
            absurd (cc (none_here, here))
        | inr (x, k) ↦
            let (q, same) = find-In (λ (x : Event). x.id == r.event_id) (events_of D user db) x k in
            let (g', p) = D.events.listed db.events (λ x. has x.id (unique ids)) x q in
            k ∙ (sym g' ∙ ap (D.events.get db.events) ((==_iff x.id r.event_id).0 same) ∙ g)
      ]

  row-IsOwn : (t : Ticket) → In t (tickets_of D user db) → IsOwn (row t)
  row-IsOwn t m =
      let (g, h) = (In-tickets_of t).0 m in
      let (r, there, own) = of_reservation t.reservation_id h in
      record {
        reservation = r;
        stored = g;
        reserved = there;
        owner = own;
        titled = λ e k.
            ap (λ o. title_of (event_of (events_of D user db) o))
              (found_reservation t.reservation_id r there own)
            ∙ ap title_of (found_event r e (reservation_of t.reservation_id r there own) k);
      }

  list_tickets_lem :
      list_tickets D user db
      ≡ (if is_empty (reservations_of D user db) then [] else map row (tickets_of D user db))
  unfolding list_tickets
  list_tickets_lem = refl

  list_tickets-IsOwn : (l : ListedTicket) → In l (list_tickets D user db) → IsOwn l
  list_tickets-IsOwn l m = elim (Bool-cases (is_empty (reservations_of D user db))) [
    | inl e ↦
        let nothing : list_tickets D user db ≡ [] = list_tickets_lem ∙ rw e refl in
        absurd (subst (λ x. In l x) nothing m)
    | inr e ↦
        let every : list_tickets D user db ≡ map row (tickets_of D user db) =
          list_tickets_lem ∙ rw e refl in
        let (t, there, same) =
          In-of_map row l (tickets_of D user db) (subst (λ x. In l x) every m) in
        subst IsOwn (sym same) (row-IsOwn t there)
  ]

  list_tickets_complete :
      (t : Ticket) (r : Reservation)
      → D.tickets.get db.tickets t.id ≡ some t
      → D.reservations.get db.reservations t.reservation_id ≡ some r
      → r.user_id ≡ user.sub
      → (l : ListedTicket) × In l (list_tickets D user db) × (l.ticket ≡ t)
  list_tickets_complete t r g h own =
      let m = reservation_of t.reservation_id r h own in
      let has_id : has t.reservation_id (reservation_ids D user db) ≡ true =
        In-has t.reservation_id (reservation_ids D user db) (
          subst (λ i. In i (reservation_ids D user db))
            (D.reservations.key-get db.reservations t.reservation_id r h)
            (In-map (λ (x : Reservation). x.id) r (reservations_of D user db) m)) in
      let there = (In-tickets_of t).1 (g, has_id) in
      (
        row t,
        subst (λ x. In (row t) x)
            (sym (list_tickets_lem ∙ filled_lem (reservations_of D user db) m))
            (In-map row t (tickets_of D user db) there),
        refl,
      )
    where
      filled_lem :
          (rs : List Reservation)
          → In r rs
          → (if is_empty rs then [] else map row (tickets_of D user db))
            ≡ map row (tickets_of D user db)
      filled_lem [] m = absurd m
      filled_lem (x ∷ rest) m = refl

  -- The list of tickets shows exactly the tickets of the user: each entry is a stored ticket of a
  -- reservation of the user, under the title of the event of that reservation, and every such
  -- ticket has an entry.
  pub list_tickets_exact :
      ((l : ListedTicket) → In l (list_tickets D user db) → IsOwn l)
      × ((t : Ticket) (r : Reservation)
          → D.tickets.get db.tickets t.id ≡ some t
          → D.reservations.get db.reservations t.reservation_id ≡ some r
          → r.user_id ≡ user.sub
          → (l : ListedTicket) × In l (list_tickets D user db) × (l.ticket ≡ t))
  list_tickets_exact = (list_tickets-IsOwn, list_tickets_complete)
