-- ===== src/Tickets/Overlap.antt =====
-- Check-ins that overlap (backend/src/tickets.controller.ts): the reads and the tests of one, and its
-- save, are two steps, between which those of others run.
use ki_ticket.Base.{
  ℕ, ◌≡◌, sym, ap, ◌∙◌, refl, arith, true, not, ◌&&◌, some, ◌⊎◌, subst, Option-cases, List, [], ◌∷◌,
  In, inl, inr, Bool-cases, ◌==◌, ==_iff,
}
use ki_ticket.Outcome.{Exception, ok, err, ok_injective}
use ki_ticket.Database.{find_by_key}
use ki_ticket.Entities.{Ticket, is_admin}
use ki_ticket.Cancellation.{find_reservation}
use ki_ticket.World.{Repositories, Db, AuthenticatedUser}
use ki_ticket.Tickets.{find_ticket, is_set, approve}
use ki_ticket.Tickets.CheckIn.{used_fails}

module _ (D : Repositories) where
  -- The tables, and the stamped tickets of the check-ins that have passed their tests and are to save.
  pub record Desk : Type 0 where
    pub db : Db D
    pub approved : List Ticket

  -- One step of the desk: a check-in reads and tests; one of those that have passed saves its ticket;
  -- or another request changes the tables, which keeps every stored ticket. That a check-in saves only
  -- once is not needed.
  pub data Step : Desk → Desk → Type 0 where
    tests :
        (desk : Desk) (now : ℕ) (user : AuthenticatedUser) (id : ℕ) (t : Ticket)
        → (approve D now user id desk.db).0 ≡ ok t
        → Step desk (record desk { approved = t ∷ desk.approved })
    saves :
        (desk : Desk) (t : Ticket) (table : D.tickets.Table)
        → In t desk.approved
        → D.tickets.save desk.db.tickets t ≡ some table
        → Step desk (record desk { db = record desk.db { tickets = table } })
    elsewhere :
        (desk : Desk) (db : Db D)
        → ((i : ℕ) (t : Ticket)
            → D.tickets.get desk.db.tickets i ≡ some t
            → D.tickets.get db.tickets i ≡ some t)
        → Step desk (record desk { db = db })

  pub data Reach (desk : Desk) : Desk → Type 0 where
    here : Reach desk desk
    next : {a b : Desk} → Reach desk a → Step a b → Reach desk b

  -- Every ticket that is to be saved has its stamp.
  abbrev pub Stamped : Desk → Type 0
  Stamped desk = (t : Ticket) → In t desk.approved → is_set t.checked_in_at ≡ true

  abbrev Used : ℕ → Desk → Type 0
  Used id desk =
      (t : Ticket) × (D.tickets.get desk.db.tickets id ≡ some t) × (is_set t.checked_in_at ≡ true)

  approve-stamped :
      (now : ℕ) (user : AuthenticatedUser) (id : ℕ) (db : Db D) (t : Ticket)
      → (approve D now user id db).0 ≡ ok t
      → is_set t.checked_in_at ≡ true
  unfolding approve
  approve-stamped now user id db t h = elim (Option-cases (find_ticket D id db)) [
    | inl n ↦ absurd (ground arith)
    | inr (found, f) ↦ elim (Option-cases (find_reservation D found.reservation_id db)) [
      | inl n ↦ absurd (ground arith)
      | inr (r, l) ↦
          elim (Option-cases (D.events.find_one_by db.events (λ x. x.id == r.event_id))) [
            | inl n ↦ absurd (ground arith)
            | inr (e, g) ↦
                elim (Bool-cases (not (is_admin user.role) && not (e.organizer_id == user.sub))) [
                  | inl q ↦ absurd (ground arith)
                  | inr q ↦ elim (Bool-cases (is_set found.checked_in_at)) [
                    | inl k ↦ absurd (ground arith)
                    | inr k ↦
                        let same : t ≡ record found { checked_in_at = some now } =
                          ok_injective (sym h ∙ rw (f, l, g, q, k) refl) in
                        ap (λ (x : Ticket). is_set x.checked_in_at) same
                  ]
                ]
          ]
    ]
  ]

  Step-Stamped : {a b : Desk} → Step a b → Stamped a → Stamped b
  Step-Stamped (tests desk now user id t h) s u (inl e) =
      rw e (approve-stamped now user id desk.db t h)
  Step-Stamped (tests desk now user id t h) s u (inr m) = s u m
  Step-Stamped (saves desk t table m h) s u k = s u k
  Step-Stamped (elsewhere desk db keeps) s u k = s u k

  Reach-Stamped : {a b : Desk} → Reach a b → Stamped a → Stamped b
  Reach-Stamped here s = s
  Reach-Stamped (next r st) s = Step-Stamped st (Reach-Stamped r s)

  -- A saved ticket is used, and one that was used stays so.
  saved-Used :
      (id : ℕ) (desk : Desk) (t : Ticket) (table : D.tickets.Table)
      → is_set t.checked_in_at ≡ true
      → D.tickets.save desk.db.tickets t ≡ some table
      → Used id desk ⊎ (id ≡ t.id)
      → Used id (record desk { db = record desk.db { tickets = table } })
  saved-Used id desk t table stamped h before = elim (Bool-cases (id == t.id)) [
    | inl e ↦ (t, D.tickets.get-save desk.db.tickets t table id h ∙ rw e refl, stamped)
    | inr e ↦ elim before [
      | inl (u, g, k) ↦ (u, D.tickets.get-save desk.db.tickets t table id h ∙ rw e g, k)
      | inr same ↦ absurd (ground (arith, ==_iff id t.id))
    ]
  ]

  Step-Used : (id : ℕ) {a b : Desk} → Step a b → Stamped a → Used id a → Used id b
  Step-Used id (tests desk now user i t h) s u = u
  Step-Used id (saves desk t table m h) s u = saved-Used id desk t table (s t m) h (inl u)
  Step-Used id (elsewhere desk db keeps) s (t, g, k) = (t, keeps id t g, k)

  Reach-Used : (id : ℕ) {a b : Desk} → Reach a b → Stamped a → Used id a → Used id b
  Reach-Used id here s u = u
  Reach-Used id (next r st) s u = Step-Used id st (Reach-Stamped r s) (Reach-Used id r s u)

  -- No check-in passes after a save: from a desk with no check-in under way, once a check-in of a
  -- ticket has saved it, every further one that begins is refused and changes nothing, by whomever
  -- and whenever, whatever check-ins test and save in between, before and after, and whatever other
  -- requests do that keep the stored tickets.
  pub approve-after_save :
      (opening desk later : Desk) (t : Ticket) (table : D.tickets.Table)
      → opening.approved ≡ []
      → Reach opening desk
      → In t desk.approved
      → D.tickets.save desk.db.tickets t ≡ some table
      → Reach (record desk { db = record desk.db { tickets = table } }) later
      → (now : ℕ) (user : AuthenticatedUser)
      → (e : Exception) × (approve D now user t.id later.db ≡ (err e, later.db))
  approve-after_save opening desk later t table start before m saved after now user =
      let stamped = Reach-Stamped before (λ u k. absurd (subst (In u) start k)) in
      let (u, g, used) =
        Reach-Used t.id after stamped
          (saved-Used t.id desk t table (stamped t m) saved (inr refl)) in
      let named = D.tickets.key-get later.db.tickets t.id u g in
      used_fails D now user t.id later.db u
        (find_by_key D.tickets later.db.tickets (λ x. x.id == t.id) t.id u g
          ((==_iff u.id t.id).1 named) (λ x. (==_iff x.id t.id).0))
        used
