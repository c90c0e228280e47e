-- ===== src/Events/Edit.antt =====
-- The edits of the events of backend/src/catalog.controller.ts keep every event ending after it
-- starts, and are made by those who may.
use ki_ticket.Base.{
  ℕ, ◌≡◌, refl, sym, ◌∙◌, true, some, arith, inl, inr, Option-cases, Bool-cases, List-cases, ◌==◌,
  ==_iff, some_injective,
}
use ki_ticket.Outcome.{ok, Result-cases, ok_injective}
use ki_ticket.Entities.{Event, PricingCategory}
use ki_ticket.World.{Repositories, Db, AuthenticatedUser}
use ki_ticket.Events.{
  validate_event_times, CreateEvent, UpdateEvent, next_start, next_end, is_given, owned_event,
  assigned, create_event, update_event, publish, prices_of,
}
use ki_ticket.Events.Times.{
  EndsLater, validate_ok, TimesAreValid, MayEdit, owned_event_ok, create_event_ok,
}

module _ (D : Repositories) where
  -- A stored event `e` is replaced by `f`.
  pub record Replaced (user : AuthenticatedUser) (id : ℕ) (db : Db D) (e f : Event) (db' : Db D)
      : Type 0 where
    pub table : D.events.Table
    pub there : D.events.get db.events id ≡ some e
    pub allowed : MayEdit D user e
    pub saved : D.events.save db.events f ≡ some table
    pub after : db' ≡ record db { events = table }

  -- An update that returns is by the owner or an admin, and an end of the new times comes after the
  -- start.
  pub update_event_ok :
      (now : ℕ) (user : AuthenticatedUser) (id : ℕ) (body : UpdateEvent) (db : Db D) (out : Event)
      → (update_event D now user id body db).0 ≡ ok out
      → (e : Event) × Replaced user id db e out (update_event D now user id body db).1
        × EndsLater out.starts_at out.ends_at
  unfolding update_event
  update_event_ok now user id body db out h = elim (Result-cases (owned_event D id user db).0) [
    | inr (x, n) ↦ absurd (ground arith)
    | inl (e, o) ↦
        let (runs, g, may) = owned_event_ok D id user db e o in
        elim (Option-cases (next_start body e)) [
          | inl n ↦ absurd (ground arith)
          | inr (s, q) ↦
              elim (Result-cases
                (validate_event_times now (some s) (next_end body e) (is_given body.starts_at))) [
                  | inr (x, k) ↦ absurd (ground arith)
                  | inl (tt, k) ↦
                      elim (Option-cases (D.events.save db.events (assigned body e s))) [
                        | inl n ↦ absurd (ground arith)
                        | inr (t, m) ↦
                            let same : out ≡ assigned body e s =
                              ok_injective (sym h ∙ ground arith) in
                            rw same (
                              e,
                              record {
                                table = t;
                                there = g;
                                allowed = may;
                                saved = m;
                                after = ground arith;
                              },
                              (validate_ok now s (next_end body e) (is_given body.starts_at) k).0,
                            )
                      ]
                ]
        ]
  ]

  -- A publication that returns is by the owner or an admin, of an event with a price; nothing of
  -- the event changes but that it is published.
  pub publish_ok :
      (user : AuthenticatedUser) (id : ℕ) (db : Db D) (out : Event)
      → (publish D user id db).0 ≡ ok out
      → (e : Event) × Replaced user id db e out (publish D user id db).1
        × (out ≡ record e { published = true })
        × ((p : PricingCategory) × (D.prices.get db.prices p.id ≡ some p) × (p.event_id ≡ id))
  unfolding publish
  publish_ok user id db out h = elim (Result-cases (owned_event D id user db).0) [
    | inr (x, n) ↦ absurd (ground arith)
    | inl (e, o) ↦
        let (runs, g, may) = owned_event_ok D id user db e o in
        elim (List-cases (prices_of D id db)) [
          | inl n ↦ absurd (ground arith)
          | inr (p, rest, q) ↦
              elim (Option-cases (D.events.save db.events (record e { published = true }))) [
                | inl n ↦ absurd (ground arith)
                | inr (t, m) ↦
                    let same : out ≡ record e { published = true } =
                      ok_injective (sym h ∙ ground arith) in
                    let (gp, kp) =
                      D.prices.listed db.prices (λ x. x.event_id == id) p (rw q (inl refl)) in
                    rw same (
                      e,
                      record {
                        table = t;
                        there = g;
                        allowed = may;
                        saved = m;
                        after = ground arith;
                      },
                      refl,
                      (p, gp, (==_iff p.event_id id).0 kp),
                    )
              ]
        ]
  ]

  -- One edit of the events.
  pub data Edit (db : Db D) : Db D → Type 0 where
    creates :
        (now id : ℕ) (user : AuthenticatedUser) (body : CreateEvent) (out : Event)
        → (create_event D now id user body db).0 ≡ ok out
        → Edit db (create_event D now id user body db).1
    updates :
        (now : ℕ) (user : AuthenticatedUser) (id : ℕ) (body : UpdateEvent) (out : Event)
        → (update_event D now user id body db).0 ≡ ok out
        → Edit db (update_event D now user id body db).1
    publishes :
        (user : AuthenticatedUser) (id : ℕ) (out : Event)
        → (publish D user id db).0 ≡ ok out
        → Edit db (publish D user id db).1

  TimesAreValid-save :
      (db : Db D) (f : Event) (t : D.events.Table)
      → D.events.save db.events f ≡ some t
      → EndsLater f.starts_at f.ends_at
      → TimesAreValid D db
      → TimesAreValid D (record db { events = t })
  TimesAreValid-save db f t m v c i e g = elim (Bool-cases (i == f.id)) [
    | inl same ↦
        let equal : f ≡ e = some_injective (ground (arith, D.events.get-save db.events f t i m)) in
        rw (← equal) v
    | inr differ ↦ c i e (ground (arith, D.events.get-save db.events f t i m))
  ]

  TimesAreValid-insert :
      (db : Db D) (f : Event) (t : D.events.Table)
      → D.events.insert db.events f ≡ some t
      → EndsLater f.starts_at f.ends_at
      → TimesAreValid D db
      → TimesAreValid D (record db { events = t })
  TimesAreValid-insert db f t m v c i e g = elim (Bool-cases (i == f.id)) [
    | inl same ↦
        let equal : f ≡ e =
          some_injective (ground (arith, D.events.get-insert db.events f t i m)) in
        rw (← equal) v
    | inr differ ↦ c i e (ground (arith, D.events.get-insert db.events f t i m))
  ]

  -- Every edit keeps the times valid: if every stored event that has an end ends after it starts,
  -- then so it is after a creation, an update or a publication.
  pub Edit-TimesAreValid :
      (db last : Db D) → Edit db last → TimesAreValid D db → TimesAreValid D last
  Edit-TimesAreValid db last (creates now id user body out h) c =
      let (t, m, after, v, _, _, _) = create_event_ok D now id user body db out h in
      rw after (TimesAreValid-insert db out t m v c)
  Edit-TimesAreValid db last (updates now user id body out h) c =
      let (e, k, v) = update_event_ok now user id body db out h in
      rw k.after (TimesAreValid-save db out k.table k.saved v c)
  Edit-TimesAreValid db last (publishes user id out h) c =
      let (e, k, same, _) = publish_ok user id db out h in
      rw k.after (TimesAreValid-save db out k.table k.saved (rw same (c id e k.there)) c)
