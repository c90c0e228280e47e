-- ===== src/World.antt =====
-- What the handlers share: the tables, the Redis server, and the messages that went out. A handler
-- is an action on this state.
use ki_ticket.Base.{ℕ, String, List, [], ◌∷◌, ◌++◌}
use ki_ticket.Outcome.{Exec, Result, ok, err}
use ki_ticket.Database.{Repository}
use ki_ticket.Redis.{Redis}
use ki_ticket.Entities.{
  Role, SeatState, Reservation, Payment, Ticket, user_entity, venue_entity, notification_entity,
  sector_entity, seat_entity, event_entity, pricing_entity, reservation_entity,
  reservation_seat_entity, payment_entity, ticket_entity, waiting_room_entity,
}

-- The injected repositories.
pub record Repositories : Type 1 where
  pub users : Repository user_entity
  pub venues : Repository venue_entity
  pub notifications : Repository notification_entity
  pub sectors : Repository sector_entity
  pub seats : Repository seat_entity
  pub events : Repository event_entity
  pub prices : Repository pricing_entity
  pub reservations : Repository reservation_entity
  pub reservation_seats : Repository reservation_seat_entity
  pub payments : Repository payment_entity
  pub tickets : Repository ticket_entity
  pub entries : Repository waiting_room_entity

pub record Db (D : Repositories) : Type 0 where
  pub users : D.users.Table
  pub venues : D.venues.Table
  pub notifications : D.notifications.Table
  pub sectors : D.sectors.Table
  pub seats : D.seats.Table
  pub events : D.events.Table
  pub prices : D.prices.Table
  pub reservations : D.reservations.Table
  pub reservation_seats : D.reservation_seats.Table
  pub payments : D.payments.Table
  pub tickets : D.tickets.Table
  pub entries : D.entries.Table

-- The claims of a verified token (backend/src/security.ts).
pub record AuthenticatedUser : Type 0 where
  pub sub : ℕ
  pub email : String
  pub role : Role

-- The bodies of the messages, and the messages: `UpdatesGateway.emitUser` and `emitEvent`
-- (backend/src/realtime.gateway.ts) and `BrokerService.publish` (backend/src/broker.service.ts).
pub data Payload : Type 0 where
  seat_status : (event_id : ℕ) (seat_ids : List ℕ) → SeatState → Payload
  of_reservation : Reservation → Payload
  of_payment : Payment → Payload
  of_ticket_ids : List ℕ → Payload
  of_tickets : List Ticket → Payload

pub data Message : Type 0 where
  emit_user : (user_id : ℕ) → String → Payload → Message
  emit_event : (event_id : ℕ) → String → Payload → Message
  publish : String → Payload → (user_id : ℕ) → Message

pub record World (D : Repositories) (R : Redis) : Type 0 where
  pub db : Db D
  pub store : R.Store
  pub sent : List Message

module _ {D : Repositories} {R : Redis} {A : Type 0} where
  -- `dataSource.transaction`: what the body has written counts only if the body returns.
  abbrev committed : World D R → Result A × Db D → Result A × World D R
  committed w (ok a, db) = (ok a, record w { db = db })
  committed w (err e, db) = (err e, w)

  abbrev pub transaction : Exec (Db D) A → Exec (World D R) A
  transaction body w = committed w (body w.db)

  -- One call outside a transaction.
  abbrev pub on_db : Exec (Db D) A → Exec (World D R) A
  on_db body w = let (r, db) = body w.db in (r, record w { db = db })

  abbrev pub on_redis : Exec R.Store A → Exec (World D R) A
  on_redis body w = let (r, store) = body w.store in (r, record w { store = store })

  -- `try { … } catch { … }`: the outcome as a value.
  abbrev pub attempt : Exec (World D R) A → Exec (World D R) (Result A)
  attempt body w = let (r, w') = body w in (ok r, w')

module _ {D : Repositories} {R : Redis} where
  abbrev pub send : Message → Exec (World D R) (Unit {0})
  send m w = (ok tt, record w { sent = w.sent ++ m ∷ [] })
