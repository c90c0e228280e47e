-- ===== src/Broker.antt =====
-- `BrokerService` of backend/src/broker.service.ts: the publication of domain events, and the
-- consumer of the queue of notifications. The Persian messages stand in English.
pub mod Delivery
pub mod Start
use Prim.Native.String.{◌++◌ as concat}
use ki_ticket.Base.{
  ℕ, String, Bool, true, false, Option, none, some, List, [], ◌∷◌, ◌++◌, str_eq, if◌then◌else◌,
}
use ki_ticket.Outcome.{Exec, Result, ok, err, duplicate_key, ◌>>=◌, ◌>>◌, pure}
use ki_ticket.Entities.{Notification}
use ki_ticket.World.{Repositories, Db, Payload}

-- What the consumer reads of an event: its payload, if there is one, and the user of that.
pub record DomainEvent : Type 0 where
  pub id : String
  pub type : String
  pub payload : Option (Option ℕ)

abbrev pub message_for : String → String
message_for type =
    if str_eq type "payment.succeeded"
    then "Your payment succeeded."
    else if str_eq type "ticket.issued"
    then "Your ticket is issued."
    else "The state of your order has changed."

-- The settlement of a delivery: `nack` sends it to the dead letters.
pub data Settlement : Type 0 where
  ack nack : Settlement

-- What the database generates of a notification, and the reading of the clock.
pub record NotificationDraw : Type 0 where
  pub id : ℕ
  pub now : ℕ

abbrev pub new_notification : NotificationDraw → DomainEvent → ℕ → Notification
new_notification draw event user_id = record {
  id = draw.id;
  user_id = user_id;
  channel = "EMAIL";
  message = message_for event.type;
  sent = true;
  provider_reference = some (concat "sandbox-" event.id);
  error = none;
  sent_at = some draw.now;
  created_at = draw.now;
}

module _ (D : Repositories) where
  -- The notification is stored, or the insertion fails.
  abbrev pub settle_with : Db D → Option D.notifications.Table → Option Settlement × Db D
  settle_with db none = (some nack, db)
  settle_with db (some t) = (some ack, record db { notifications = t })

  -- The body of the `try`, when the content has been parsed; no payload is a type error.
  abbrev pub notify :
      NotificationDraw → Db D → DomainEvent → Option (Option ℕ) → Option Settlement × Db D
  notify draw db event none = (some nack, db)
  notify draw db event (some none) = (some ack, db)
  notify draw db event (some (some user_id)) =
      settle_with db (D.notifications.insert db.notifications (new_notification draw event user_id))

  abbrev pub consume_parsed :
      NotificationDraw → Db D → Option DomainEvent → Option Settlement × Db D
  consume_parsed draw db none = (some nack, db)
  consume_parsed draw db (some event) = notify draw db event event.payload

  -- `consume`: `parse` is `JSON.parse`, `none` its error, and no message is the end of the queue.
  unfoldable pub consume :
      (parse : String → Option DomainEvent)
      → (channel : Bool) → NotificationDraw
      → Option String
      → Db D
      → Option Settlement × Db D
  consume parse channel draw none db = (none, db)
  consume parse channel draw (some content) db =
      if channel then consume_parsed draw db (parse content) else (none, db)

-- The connection, as `publish` and `isHealthy` see it.
pub record Connection : Type 0 where
  pub channel : Bool
  pub healthy : Bool

-- What the events of the connection do.
pub data ConnectionEvent : Type 0 where
  connected failed closed shut_down : ConnectionEvent

abbrev pub on_connection : ConnectionEvent → Connection → Connection
on_connection connected c = record { channel = true; healthy = true }
on_connection failed c = record c { healthy = false }
on_connection closed c = record { channel = false; healthy = false }
on_connection shut_down c = record c { healthy = false }

-- What becomes of an event that is published. `accepts` is whether the channel takes it; the
-- caller goes on in any case.
pub data Published : Type 0 where
  on_exchange logged lost : Published

unfoldable pub publish_event : (accepts : Bool) → Connection → Published × Connection
publish_event accepts c =
    if c.channel
    then if accepts then (on_exchange, c) else (lost, record c { healthy = false })
    else (logged, c)
