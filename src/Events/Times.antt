-- ===== src/Events/Times.antt =====
-- The times and the owners of the events of backend/src/catalog.controller.ts.
use ki_ticket.Base.{
  ℕ, ◌<◌, ◌≡◌, ◌⊎◌, refl, sym, ap, ◌∙◌, Bool, true, false, not, ◌&&◌, Option, none, some, arith,
  inl, inr, Option-cases, Bool-cases, ◌==◌, ==_iff,
}
use ki_ticket.Outcome.{ok, Result-cases, ok_injective}
use ki_ticket.Entities.{Event, Role, is_admin}
use ki_ticket.World.{Repositories, Db, AuthenticatedUser}
use ki_ticket.Events.{
  validate_event_times, date_of, CreateEvent, owned_event, new_event, create_event,
}

-- An event that has an end ends after it starts.
abbrev pub EndsLater : ℕ → Option ℕ → Type 0
EndsLater starts_at none = Unit
EndsLater starts_at (some t) = starts_at < t

pub validate_ok :
    (now starts_at : ℕ) (ends_at : Option (Option ℕ)) (require_future : Bool)
    → validate_event_times now (some starts_at) ends_at require_future ≡ ok tt
    → EndsLater starts_at (date_of ends_at) × (require_future ≡ true → now < starts_at)
unfolding validate_event_times
validate_ok now starts_at none require_future h = (tt, ground arith)
validate_ok now starts_at (some none) require_future h = absurd (ground arith)
validate_ok now starts_at (some (some t)) require_future h = (ground arith, ground arith)

module _ (D : Repositories) where
  -- Every stored event that has an end ends after it starts.
  abbrev pub TimesAreValid : Db D → Type 0
  TimesAreValid db =
      (i : ℕ) (e : Event) → D.events.get db.events i ≡ some e → EndsLater e.starts_at e.ends_at

  pub create_event_ok :
      (now id : ℕ) (user : AuthenticatedUser) (body : CreateEvent) (db : Db D) (out : Event)
      → (create_event D now id user body db).0 ≡ ok out
      → (t : D.events.Table) × (D.events.insert db.events out ≡ some t)
        × ((create_event D now id user body db).1 ≡ record db { events = t })
        × EndsLater out.starts_at out.ends_at
        × (now < out.starts_at)
        × (out.organizer_id ≡ user.sub)
        × (out.published ≡ false)
  unfolding create_event
  create_event_ok now id user body db out h =
      elim (Option-cases (D.venues.find_one_by db.venues (λ v. v.id == body.venue_id))) [
        | inl n ↦ absurd (ground arith)
        | inr (v, f) ↦ elim (Option-cases body.starts_at) [
          | inl n ↦ absurd (ground arith)
          | inr (s, q) ↦ elim (Result-cases (validate_event_times now (some s) body.ends_at true)) [
            | inr (e, k) ↦ absurd (ground arith)
            | inl (tt, k) ↦
                elim (Option-cases (D.events.insert db.events (new_event id user.sub body s))) [
                  | inl n ↦ absurd (ground arith)
                  | inr (t, m) ↦
                      let same : out ≡ new_event id user.sub body s =
                        ok_injective (sym h ∙ ground arith) in
                      let valid = validate_ok now s body.ends_at true k in
                      rw same (t, m, ground arith, valid.0, valid.1 refl, refl, refl)
                ]
          ]
        ]
      ]

  -- The owner of an event, or an admin, who was let through by `ownedEvent`.
  abbrev pub MayEdit : AuthenticatedUser → Event → Type 0
  MayEdit user e = (user.role ≡ Role.admin) ⊎ (e.organizer_id ≡ user.sub)

  pub owned_event_ok :
      (id : ℕ) (user : AuthenticatedUser) (db : Db D) (event : Event)
      → (owned_event D id user db).0 ≡ ok event
      → (owned_event D id user db ≡ (ok event, db))
        × (D.events.get db.events id ≡ some event)
        × MayEdit user event
  unfolding owned_event
  owned_event_ok id user db event h =
      elim (Option-cases (D.events.find_one_by db.events (λ e. e.id == id))) [
        | inl n ↦ absurd (ground arith)
        | inr (e, f) ↦
            elim (Bool-cases (not (is_admin user.role) && not (e.organizer_id == user.sub))) [
              | inl q ↦ absurd (ground arith)
              | inr q ↦
                  let (g, k) = D.events.found db.events (λ x. x.id == id) e f in
                  let same : e ≡ event = ok_injective (ground arith) in
                  rw (← same) (
                    rw (f, q) refl,
                    ap (D.events.get db.events) (sym ((==_iff e.id id).0 k)) ∙ g,
                    editor e q,
                  )
            ]
      ]
    where
      editor :
          (e : Event)
          → (not (is_admin user.role) && not (e.organizer_id == user.sub)) ≡ false
          → MayEdit user e
      editor e q = elim (Bool-cases (is_admin user.role)) [
        | inl a ↦ inl (ground arith)
        | inr n ↦ inr ((==_iff e.organizer_id user.sub).0 (ground arith))
      ]
