-- ===== src/Queue/Entering.antt =====
-- `join` of backend/src/waiting-room.controller.ts: how a run of it ends.
use ki_ticket.Base.{
  ℕ, suc, ◌≡◌, refl, sym, true, false, Option, none, some, List, [], ◌∷◌, arith, In, inl, inr, leb,
  Bool-cases, Option-cases, some_injective,
}
use ki_ticket.Outcome.{Exception, redis_unavailable, duplicate_key, Result, ok, err, Result-cases}
use ki_ticket.Redis.{Redis, sequence, number}
use ki_ticket.Entities.{Event, WaitingRoomEntry}
use ki_ticket.World.{Repositories, World, AuthenticatedUser}
use ki_ticket.Reservation.{bookable_event}
use ki_ticket.Queue.{
  Arrival, latest, good_active, still_good, new_entry, active, enter, insert_entry,
}

pub latest-In : (es : List WaitingRoomEntry) (e : WaitingRoomEntry) → latest es ≡ some e → In e es
latest-In [] e h = cc
latest-In (f ∷ rest) e h = elim (Option-cases (latest rest)) [
  | inl n ↦ inl (sym (some_injective (ground arith)))
  | inr (g, k) ↦ elim (Bool-cases (leb g.created_at f.created_at)) [
    | inl q ↦ inl (sym (some_injective (ground arith)))
    | inr q ↦ inr (latest-In rest e (ground arith))
  ]
]

good_active-some :
    (o : Option WaitingRoomEntry) (now : ℕ) (e : WaitingRoomEntry)
    → good_active o now ≡ some e
    → o ≡ some e
good_active-some none now e h = cc
good_active-some (some f) now e h = elim (Bool-cases (still_good f.token_expires_at now)) [
  | inl q ↦ ground arith
  | inr q ↦ absurd (ground arith)
]

good_active-good :
    (o : Option WaitingRoomEntry) (now : ℕ) (e : WaitingRoomEntry)
    → good_active o now ≡ some e
    → still_good e.token_expires_at now ≡ true
good_active-good none now e h = cc
good_active-good (some f) now e h = elim (Bool-cases (still_good f.token_expires_at now)) [
  | inl q ↦ let same : f ≡ e = some_injective (ground arith) in rw (← same) q
  | inr q ↦ absurd (ground arith)
]

module _ (D : Repositories) (R : Redis) (a : Arrival) (user : AuthenticatedUser) (event_id : ℕ)
    (w : World D R) where
  bookable_reads : (bookable_event D event_id a.event_at w.db).1 ≡ w.db
  unfolding bookable_event
  bookable_reads = ground arith

  abbrev pub position : ℕ
  position = suc (number (R.get w.store a.counter.now (sequence event_id)))

  abbrev pub entry : WaitingRoomEntry
  entry = new_entry a event_id user.sub position

  -- How a run of `join` ends.
  pub data Entered : Result WaitingRoomEntry → World D R → Type 0 where
    turned_away : (e : Exception) (w' : World D R) → w'.db ≡ w.db → Entered (err e) w'
    returning :
        (e : WaitingRoomEntry)
        → active D event_id user.sub w.db ≡ some e
        → still_good e.token_expires_at a.active_at ≡ true
        → Entered (ok e) w
    entering :
        (t : D.entries.Table)
        → good_active (active D event_id user.sub w.db) a.active_at ≡ none
        → a.counter.reached ≡ true
        → D.entries.insert w.db.entries entry ≡ some t
        → Entered (ok entry) (record w {
          db = record w.db { entries = t };
          store = (R.incr w.store a.counter.now (sequence event_id)).0;
        })

  abbrev pub run : Result WaitingRoomEntry × World D R
  run = enter D R a user event_id w

  no_event :
      (e : Exception) → (bookable_event D event_id a.event_at w.db).0 ≡ err e → run ≡ (err e, w)
  unfolding enter
  no_event e h = ground (arith, bookable_reads)

  returns_active :
      (event : Event) (e : WaitingRoomEntry)
      → (bookable_event D event_id a.event_at w.db).0 ≡ ok event
      → good_active (active D event_id user.sub w.db) a.active_at ≡ some e
      → run ≡ (ok e, w)
  unfolding enter
  returns_active event e h g = let same = bookable_reads in rw (h, same, g) refl

  unreached :
      (event : Event)
      → (bookable_event D event_id a.event_at w.db).0 ≡ ok event
      → good_active (active D event_id user.sub w.db) a.active_at ≡ none
      → a.counter.reached ≡ false
      → run ≡ (err redis_unavailable, w)
  unfolding enter
  unreached event h g down = let same = bookable_reads in rw (h, same, g, down) refl

  insert_ok :
      (t : D.entries.Table)
      → D.entries.insert w.db.entries entry ≡ some t
      → insert_entry D entry w.db ≡ (ok entry, record w.db { entries = t })
  insert_ok t q = rw (q, insert_entry) refl

  insert_err :
      D.entries.insert w.db.entries entry ≡ none
      → insert_entry D entry w.db ≡ (err duplicate_key, w.db)
  insert_err q = rw (q, insert_entry) refl

  stored :
      (event : Event) (t : D.entries.Table)
      → (bookable_event D event_id a.event_at w.db).0 ≡ ok event
      → good_active (active D event_id user.sub w.db) a.active_at ≡ none
      → a.counter.reached ≡ true
      → D.entries.insert w.db.entries entry ≡ some t
      → run ≡ (
        ok entry,
        record w {
          db = record w.db { entries = t };
          store = (R.incr w.store a.counter.now (sequence event_id)).0;
        },
      )
  unfolding enter
  stored event t h g up q =
      let same = bookable_reads in
      rw (h, same, g, up, R.incr_value w.store a.counter.now (sequence event_id), insert_ok t q)
        refl

  rejected :
      (event : Event)
      → (bookable_event D event_id a.event_at w.db).0 ≡ ok event
      → good_active (active D event_id user.sub w.db) a.active_at ≡ none
      → a.counter.reached ≡ true
      → D.entries.insert w.db.entries entry ≡ none
      → run ≡ (
        err duplicate_key,
        record w { store = (R.incr w.store a.counter.now (sequence event_id)).0 },
      )
  unfolding enter
  rejected event h g up q =
      let same = bookable_reads in
      rw (h, same, g, up, R.incr_value w.store a.counter.now (sequence event_id), insert_err q) refl

  good_still :
      (e : WaitingRoomEntry)
      → good_active (active D event_id user.sub w.db) a.active_at ≡ some e
      → still_good e.token_expires_at a.active_at ≡ true
  good_still e h = good_active-good (active D event_id user.sub w.db) a.active_at e h

  pub enter_cases : Entered run.0 run.1
  enter_cases = elim (Result-cases (bookable_event D event_id a.event_at w.db).0) [
    | inr (e, h) ↦ rw (no_event e h) (turned_away e w refl)
    | inl (event, h) ↦
        elim (Option-cases (good_active (active D event_id user.sub w.db) a.active_at)) [
          | inr (e, g) ↦ rw (returns_active event e h g) (
              returning e (good_active-some (active D event_id user.sub w.db) a.active_at e g)
                (good_still e g))
          | inl g ↦ elim (Bool-cases a.counter.reached) [
            | inr down ↦ rw (unreached event h g down) (turned_away redis_unavailable w refl)
            | inl up ↦ elim (Option-cases (D.entries.insert w.db.entries entry)) [
              | inl q ↦ rw (rejected event h g up q) (
                  turned_away duplicate_key
                    (record w { store = (R.incr w.store a.counter.now (sequence event_id)).0 })
                    refl)
              | inr (t, q) ↦ rw (stored event t h g up q) (entering t g up q)
            ]
          ]
        ]
  ]
