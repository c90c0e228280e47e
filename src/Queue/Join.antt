-- ===== src/Queue/Join.antt =====
-- `join` of backend/src/waiting-room.controller.ts: the entry that it returns.
use ki_ticket.Base.{
  ℕ, suc, String, ◌≡◌, ◌≢◌, ◌<◌, ◌≤◌, ◌↔◌, refl, sym, ap, ◌∙◌, true, none, some, arith, inl, inr,
  leb, Bool-cases, ==_iff,
}
use ki_ticket.Outcome.{Result, ok, ok_injective}
use ki_ticket.Redis.{Redis, sequence, number}
use ki_ticket.Entities.{WaitingRoomEntry, WaitingRoomState}
use ki_ticket.World.{Repositories, Db, World, AuthenticatedUser}
use ki_ticket.WaitingRoom.{assert_admission}
use ki_ticket.WaitingRoom.Admission.{admission_iff}
use ki_ticket.Queue.{Arrival, is_active, good_active, active, enter}
use ki_ticket.Queue.Entering.{
  latest-In, Entered, turned_away, returning, entering, position, entry, enter_cases,
}

module _ (D : Repositories) (R : Redis) (a : Arrival) (user : AuthenticatedUser) (event_id : ℕ)
    (w : World D R) where
  -- The run, its entry and the number that it draws.
  abbrev entered : Result WaitingRoomEntry × World D R
  entered = enter D R a user event_id w

  abbrev drawn : ℕ
  drawn = position D R a user event_id w

  abbrev made : WaitingRoomEntry
  made = entry D R a user event_id w

  -- An entry is stored, and is the user's for the event.
  abbrev pub Mine : WaitingRoomEntry → Db D → Type 0
  Mine e db =
      (D.entries.get db.entries e.id ≡ some e) × (e.event_id ≡ event_id) × (e.user_id ≡ user.sub)

  entry_fields : (made.event_id ≡ event_id) × (made.user_id ≡ user.sub)
  entry_fields = elim (Bool-cases (leb drawn a.capacity)) [
    | inl q ↦ rw q (refl, refl)
    | inr q ↦ rw q (refl, refl)
  ]

  Mine-Entered :
      (out : Result WaitingRoomEntry) (w' : World D R) (e : WaitingRoomEntry)
      → Entered D R a user event_id w out w'
      → out ≡ ok e
      → Mine e w'.db
  Mine-Entered out w' e (turned_away x v k) h = cc
  Mine-Entered out w' e (returning f k l) h =
      let m = latest-In (D.entries.find_by w.db.entries (is_active event_id user.sub)) f k in
      let (g, t) = D.entries.listed w.db.entries (is_active event_id user.sub) f m in
      rw (sym (ok_injective h))
        (g, ground (arith, ==_iff f.event_id event_id), ground (arith, ==_iff f.user_id user.sub))
  Mine-Entered out w' e (entering t k l q) h = rw (sym (ok_injective h)) (
    ground (arith, D.entries.get-insert w.db.entries made t made.id q),
    entry_fields.0,
    entry_fields.1,
  )

  -- Who joins and is admitted may reserve: if the entry that a run of `join` returns is admitted,
  -- then its token, if not empty, passes the admission check until it expires.
  pub enter-admission :
      (e : WaitingRoomEntry) (token : String) (now expiry : ℕ)
      → entered.0 ≡ ok e
      → e.state ≡ WaitingRoomState.admitted
      → e.admission_token ≡ some token
      → token ≢ ""
      → e.token_expires_at ≡ some expiry
      → now < expiry
      → (assert_admission D true now event_id user.sub (some token) entered.1.db).0 ≡ ok tt
  enter-admission e token now expiry h st tk named te live =
      let (g, ev, us) = Mine-Entered entered.0 entered.1 e (enter_cases D R a user event_id w) h in
      (admission_iff D now event_id user.sub token entered.1.db).1
        (named, (e, (g, ev, us, st, tk, (expiry, te, live))))

  Granted-Entered :
      (out : Result WaitingRoomEntry) (w' : World D R) (e : WaitingRoomEntry)
      → Entered D R a user event_id w out w'
      → out ≡ ok e
      → good_active (active D event_id user.sub w.db) a.active_at ≡ none
      → (e ≡ made) × (R.get w'.store a.counter.now (sequence event_id) ≡ some drawn)
  Granted-Entered out w' e (turned_away x v k) h n = cc
  Granted-Entered out w' e (returning f k l) h n = absurd (ground arith)
  Granted-Entered out w' e (entering t k l q) h n = (
    sym (ok_injective h),
    R.get-incr_self w.store a.counter.now (sequence event_id)
        ∙ ap some (R.incr_value w.store a.counter.now (sequence event_id)),
  )

  entry_state :
      (made.position ≡ drawn) × ((made.state ≡ WaitingRoomState.admitted) ↔ (drawn ≤ a.capacity))
  entry_state = elim (Bool-cases (leb drawn a.capacity)) [
    | inl q ↦ rw q (refl, ((λ h. ground arith), (λ h. refl)))
    | inr q ↦ rw q (refl, ((λ h. cc), (λ h. absurd (ground arith))))
  ]

  -- A run of `join` that returns, of a user with no entry that is still good, takes the next number
  -- of the event's sequence, which the counter then holds, and admits the user exactly if that
  -- number is within the capacity of the immediate admissions.
  pub enter_next :
      (e : WaitingRoomEntry)
      → entered.0 ≡ ok e
      → good_active (active D event_id user.sub w.db) a.active_at ≡ none
      → (e.position ≡ suc (number (R.get w.store a.counter.now (sequence event_id))))
        × (R.get entered.1.store a.counter.now (sequence event_id) ≡ some e.position)
        × ((e.state ≡ WaitingRoomState.admitted) ↔ (e.position ≤ a.capacity))
  enter_next e h n =
      let (same, counted) =
        Granted-Entered entered.0 entered.1 e (enter_cases D R a user event_id w) h n in
      rw (same, entry_state.0) (refl, counted, entry_state.1)
