-- ===== src/Broker/Start.antt =====
-- `onModuleInit` of backend/src/broker.service.ts: the commands that set up the exchanges, the queue
-- and its bindings, of which the first that fails ends the setup.
use ki_ticket.Base.{
  String, ◌≡◌, refl, Bool, true, false, Bool-cases, List, [], ◌∷◌, inl, inr, if◌then◌else◌,
}
use ki_ticket.Broker.{Connection}

-- The kind of an exchange.
pub data ExchangeKind : Type 0 where
  topic fanout : ExchangeKind

pub data Command : Type 0 where
  connect create_channel : Command
  assert_exchange : (name : String) (kind : ExchangeKind) → Command
  assert_queue : (name : String) (dead_letter_exchange : String) → Command
  bind_queue : (queue : String) (exchange : String) (pattern : String) → Command
  consume_queue : (queue : String) → Command

abbrev pub events_exchange : String
events_exchange = "ticketing.events"

abbrev pub dead_letter_exchange : String
dead_letter_exchange = "ticketing.dead-letter"

abbrev pub notifications_queue : String
notifications_queue = "ticketing.notifications"

-- The commands after the channel is open.
unfoldable pub setup : List Command
setup =
    assert_exchange events_exchange topic
    ∷ assert_queue notifications_queue dead_letter_exchange
    ∷ assert_exchange dead_letter_exchange fanout
    ∷ bind_queue notifications_queue events_exchange "payment.#"
    ∷ bind_queue notifications_queue events_exchange "ticket.#"
    ∷ consume_queue notifications_queue
    ∷ []

-- All commands of a list succeed, one after the other.
abbrev pub all_work : (Command → Bool) → List Command → Bool
all_work works [] = true
all_work works (c ∷ rest) = if works c then all_work works rest else false

abbrev pub with_channel : (Command → Bool) → Connection → Connection
with_channel works c =
    if all_work works setup
    then record { channel = true; healthy = true }
    else record c { channel = true }

-- `onModuleInit`, where `works` tells which commands succeed; the events of the connection are
-- those of `on_connection`.
unfoldable pub on_module_init : (Command → Bool) → Connection → Connection
on_module_init works c =
    if works connect then if works create_channel then with_channel works c else c else c

-- The service is healthy after its start exactly if every command succeeds, and it has a channel
-- exactly if the first two do, so that it publishes even when its queue could not be set up.
on_module_init_lem :
    (works : Command → Bool)
    → let c = on_module_init works (record { channel = false; healthy = false }) in
      (c.healthy ≡ all_work works (connect ∷ create_channel ∷ setup))
      × (c.channel ≡ all_work works (connect ∷ create_channel ∷ []))
unfolding on_module_init
on_module_init_lem works = elim (Bool-cases (works connect)) [
  | inr e ↦ rw e (refl, refl)
  | inl e ↦ elim (Bool-cases (works create_channel)) [
    | inr f ↦ rw (e, f) (refl, refl)
    | inl f ↦ elim (Bool-cases (all_work works setup)) [
      | inl g ↦ rw (e, f, g) (refl, refl)
      | inr g ↦ rw (e, f, g) (refl, refl)
    ]
  ]
]
