-- ===== src/Queue.antt =====
-- `WaitingRoomController` of backend/src/waiting-room.controller.ts.
pub mod Order
pub mod Line
pub mod Admit
pub mod Entering
pub mod Join
use ki_ticket.Base.{
  ℕ, suc, ◌+◌, ◌*◌, String, Bool, true, false, not, ◌&&◌, ◌||◌, Option, none, some, List, [], ◌∷◌,
  map, length, take, ◌==◌, leb, if◌then◌else◌,
}
use ki_ticket.Outcome.{
  Exec, Result, ok, err, conflict, forbidden, not_found, duplicate_key, redis_unavailable, raise,
  raise_if, require, pure, lift, gets, ◌>>=◌, ◌>>◌,
}
use ki_ticket.Database.{save_all}
use ki_ticket.Redis.{Redis, sequence}
use ki_ticket.Lock.{Call}
use ki_ticket.Entities.{
  Event, WaitingRoomEntry, WaitingRoomState, is_admitted, is_queued, Role, is_admin,
}
use ki_ticket.World.{Repositories, Db, World, AuthenticatedUser, on_db, on_redis}
use ki_ticket.Reservation.{bookable_event}

-- The fields that `response` picks.
pub record Response : Type 0 where
  pub id : ℕ
  pub event_id : ℕ
  pub position : ℕ
  pub state : WaitingRoomState
  pub admission_token : Option String
  pub token_expires_at : Option ℕ

abbrev pub response : WaitingRoomEntry → Response
response e = record {
  id = e.id;
  event_id = e.event_id;
  position = e.position;
  state = e.state;
  admission_token = e.admission_token;
  token_expires_at = e.token_expires_at;
}

-- A new token: `randomBytes(24)`, the instant of the call, and the setting `ADMISSION_TTL_SECONDS`.
pub record TokenDraw : Type 0 where
  pub token : String
  pub at : ℕ
  pub ttl_seconds : ℕ

abbrev pub token_expiry : TokenDraw → ℕ
token_expiry d = d.at + d.ttl_seconds * 1000

-- `{ state: ADMITTED, ...this.tokenFields() }`
abbrev pub admit_entry : TokenDraw → WaitingRoomEntry → WaitingRoomEntry
admit_entry d e = record e {
  state = WaitingRoomState.admitted;
  admission_token = some d.token;
  token_expires_at = some (token_expiry d);
}

-- What a run of `join` meets: readings of the clock, the call of Redis, the setting
-- `WAITING_ROOM_INITIAL_ADMISSIONS`, and what the database generates for a new entry.
pub record Arrival : Type 0 where
  pub event_at : ℕ
  pub active_at : ℕ
  pub counter : Call
  pub capacity : ℕ
  pub draw : TokenDraw
  pub id : ℕ
  pub created_at : ℕ

abbrev pub is_active : ℕ → ℕ → WaitingRoomEntry → Bool
is_active event_id user_id e =
    e.event_id == event_id && (e.user_id == user_id && (is_queued e.state || is_admitted e.state))

-- `order: { createdAt: 'DESC' }` with `findOne`
abbrev pub later_of : WaitingRoomEntry → Option WaitingRoomEntry → WaitingRoomEntry
later_of e none = e
later_of e (some f) = if leb f.created_at e.created_at then e else f

abbrev pub latest : List WaitingRoomEntry → Option WaitingRoomEntry
latest [] = none
latest (e ∷ rest) = some (later_of e (latest rest))

-- `!active.tokenExpiresAt || active.tokenExpiresAt > new Date()`
abbrev pub still_good : Option ℕ → ℕ → Bool
still_good none now = true
still_good (some t) now = not (leb t now)

abbrev pub good_active : Option WaitingRoomEntry → ℕ → Option WaitingRoomEntry
good_active none now = none
good_active (some e) now = if still_good e.token_expires_at now then some e else none

abbrev pub queued_entry : Arrival → ℕ → ℕ → ℕ → WaitingRoomEntry
queued_entry a event_id user_id position = record {
  id = a.id;
  event_id = event_id;
  user_id = user_id;
  position = position;
  state = WaitingRoomState.queued;
  admission_token = none;
  token_expires_at = none;
  created_at = a.created_at;
}

abbrev pub new_entry : Arrival → ℕ → ℕ → ℕ → WaitingRoomEntry
new_entry a event_id user_id position =
    if leb position a.capacity
    then admit_entry a.draw (queued_entry a event_id user_id position)
    else queued_entry a event_id user_id position

-- The order of positions: `order: { position: 'ASC' }`.
abbrev pub insert_by_position : WaitingRoomEntry → List WaitingRoomEntry → List WaitingRoomEntry
insert_by_position e [] = e ∷ []
insert_by_position e (f ∷ rest) =
    let later = insert_by_position e rest in
    if leb e.position f.position then e ∷ f ∷ rest else f ∷ later

abbrev pub by_position : List WaitingRoomEntry → List WaitingRoomEntry
by_position [] = []
by_position (e ∷ rest) = insert_by_position e (by_position rest)

-- The n-th admitted entry gets the n-th new token.
abbrev pub admit_all : (ℕ → TokenDraw) → ℕ → List WaitingRoomEntry → List WaitingRoomEntry
admit_all draws n [] = []
admit_all draws n (e ∷ rest) = admit_entry (draws n) e ∷ admit_all draws (suc n) rest

module _ (D : Repositories) where
  abbrev pub active : ℕ → ℕ → Db D → Option WaitingRoomEntry
  active event_id user_id db = latest (D.entries.find_by db.entries (is_active event_id user_id))

  abbrev pub insert_entry : WaitingRoomEntry → Exec (Db D) WaitingRoomEntry
  insert_entry e db = elim (D.entries.insert db.entries e) [
    | none ↦ (err duplicate_key, db)
    | some t ↦ (ok e, record db { entries = t })
  ]

  abbrev pub queued_for : ℕ → WaitingRoomEntry → Bool
  queued_for event_id e = e.event_id == event_id && is_queued e.state

  -- The entries that `admit` takes.
  abbrev pub next_in_line : ℕ → ℕ → Db D → List WaitingRoomEntry
  next_in_line event_id count db =
      take count (by_position (D.entries.find_by db.entries (queued_for event_id)))

  abbrev pub save_entries : List WaitingRoomEntry → Exec (Db D) (Unit {0})
  save_entries rows db = elim (save_all D.entries rows db.entries) [
    | none ↦ (err duplicate_key, db)
    | some t ↦ (ok tt, record db { entries = t })
  ]

  unfoldable pub admit : (ℕ → TokenDraw) → ℕ → ℕ → Exec (Db D) (ℕ × List Response)
  admit draws event_id count = do
    queued ← gets (next_in_line event_id count)
    let admitted = admit_all draws 0 queued
    save_entries admitted
    pure (length admitted, map response admitted)

  unfoldable pub status : AuthenticatedUser → ℕ → Exec (Db D) Response
  status user id = do
    found ← gets (λ db. D.entries.find_one_by db.entries (λ e. e.id == id))
    entry ← require found (not_found "Waiting-room entry not found")
    raise_if (not (entry.user_id == user.sub) && not (is_admin user.role)) (forbidden "Forbidden")
    pure (response entry)

  module _ (R : Redis) where
    abbrev pub next_position : Call → ℕ → Exec R.Store ℕ
    next_position c event_id s = elim c.reached [
      | true ↦ let (s', n) = R.incr s c.now (sequence event_id) in (ok n, s')
      | false ↦ (err redis_unavailable, s)
    ]

    abbrev pub return_or_queue :
        Option WaitingRoomEntry → Arrival → ℕ → ℕ → Exec (World D R) WaitingRoomEntry
    return_or_queue (some e) a event_id user_id = pure e
    return_or_queue none a event_id user_id = do
      position ← on_redis (next_position a.counter event_id)
      on_db (insert_entry (new_entry a event_id user_id position))

    -- `join`, up to the entry whose fields it returns.
    unfoldable pub enter : Arrival → AuthenticatedUser → ℕ → Exec (World D R) WaitingRoomEntry
    enter a user event_id = do
      on_db (bookable_event D event_id a.event_at)
      found ← on_db (gets (active event_id user.sub))
      return_or_queue (good_active found a.active_at) a event_id user.sub

    unfoldable pub join : Arrival → AuthenticatedUser → ℕ → Exec (World D R) Response
    unfolding enter
    join a user event_id = do entry ← enter a user event_id; pure (response entry)
