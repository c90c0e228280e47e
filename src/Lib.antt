-- ===== src/Lib.antt =====
-- KiTicket, an event-ticketing service: customers reserve seats under Redis locks, pay with
-- idempotent requests, and get tickets; organizers run a catalog; a waiting room admits customers
-- to an event. A web application drives the service.
--
-- The handlers of the server share three stores, which World.antt puts into one state: the tables
-- of PostgreSQL (through TypeORM), the Redis server, and the messages that went out over sockets
-- and the broker. A handler is an action on this state that returns or throws (Outcome.antt); a
-- database transaction is an action on the tables whose writes count only if it returns. The web
-- application is a client of these handlers: a page is a record of its state, and the server's
-- replies to it are arguments.
--
-- - Base.antt: lists, sorting, pages, and the tests on numbers. Json.antt: the values of JSON.
-- - Database.antt: the repositories of TypeORM as an interface with their documented laws, and an
--   implementation by lists, on which the examples run. Batch.antt is `save` and `remove` of
--   several rows.
-- - Redis.antt: the commands that the source calls as an interface, and a server in memory.
-- - Entities.antt: backend/src/entities.ts; identifiers are numbers in place of UUIDs, instants
--   are milliseconds, and the stamps of creation and update are left out, but for those by which
--   the source orders rows.
-- - Lock.antt: `LockService` and the Lua scripts of backend/src/lock.service.ts. Every call has
--   its own instant, and may find the server out of reach.
-- - WaitingRoom.antt: `WaitingRoomService` of backend/src/waiting-room.controller.ts; Queue.antt:
--   its controller.
-- - Pricing.antt and Reservation.antt: `create` of backend/src/reservations.controller.ts;
--   Cancellation.antt: its `get` and `cancel`; Expiry.antt: its `ExpiryService`.
-- - PaymentPolicy.antt: backend/src/payment-policy.ts. Payment.antt: `completeTransaction` of
--   backend/src/payments.controller.ts; Checkout.antt: its endpoints.
-- - Tickets.antt and TicketList.antt: backend/src/tickets.controller.ts. RowLabel.antt,
--   Venues.antt, Events.antt, EventPage.antt and Search.antt: backend/src/catalog.controller.ts.
-- - Security.antt: `AuthGuard` of backend/src/security.ts. Accounts.antt:
--   backend/src/auth.controller.ts.
-- - HttpErrors.antt: backend/src/http-exception.filter.ts. Broker.antt:
--   backend/src/broker.service.ts. Gateway.antt: backend/src/realtime.gateway.ts. Health.antt:
--   backend/src/health.controller.ts, backend/src/redis.service.ts and the check of the
--   environment of backend/src/main.ts.
-- - Booking.antt: the invariant of the rows of a booking, the transactions as steps of one system,
--   what the endpoints do as a whole, and the running service.
-- - Client.antt: `api` of frontend/src/api.ts; IdempotencyKey.antt: its `idempotencyKey`.
--   Storage.antt: the storages of the browser. Session.antt: frontend/src/auth.tsx.
-- - SeatMap.antt and Reserving.antt: frontend/src/components/EventPage.tsx. Paying.antt:
--   frontend/src/components/Checkout.tsx. Wallet.antt: the tickets that the pages keep, from
--   Checkout.tsx and frontend/src/components/Tickets.tsx. Home.antt:
--   frontend/src/components/Home.tsx. Login.antt: frontend/src/components/Login.tsx. Layout.antt:
--   frontend/src/components/Layout.tsx. Organizing.antt: frontend/src/components/EventForm.tsx;
--   its Panel.antt: Manage.tsx and VenueForm.tsx.
--
-- The random values, the clock readings, the ids that the database generates and the settings of
-- the process are arguments of the handlers, and so are the functions of the libraries, such as
-- bcrypt, the token library and the parser of JSON. What a handler reads before its transaction is
-- read at one instant; its transaction is one step of an interleaving, since the source locks the
-- rows that it changes and the unique constraints are checked by the database. A check-in, which
-- has neither a transaction nor a lock, is two steps, its tests and its save, between which others
-- run. A round of the expiry sweep reads the seats of a reservation and runs its transaction in
-- one step. The order in which the database returns events that start at once is an argument of
-- each search. The loops run over lists, but for four: that of `rowLabel` has `index + 1` rounds
-- as its fuel, and the value that it divides gets smaller in each round; that of `String(n)`, for
-- the number of a page, has `n + 1` rounds; that of `api` has its number of attempts, and that of
-- the polls has sixty rounds, as in the source. The Persian messages stand in English.
--
-- Not modelled: the frameworks, logging, the connection handling of Redis, what RabbitMQ does with
-- a message, the validation of the request bodies, the timer of the sweep, the script with the
-- demo data, the form of a sector, which only sends its fields, and the markup of the pages. A
-- call of Redis whose answer is lost after it has run is not modelled either: a call fails before
-- it has any effect.
mod Base
pub mod Outcome
pub mod Database
pub mod Redis
pub mod Lock
pub mod Entities
pub mod World
pub mod WaitingRoom
pub mod Pricing
pub mod Reservation
pub mod Cancellation
pub mod Expiry
pub mod PaymentPolicy
pub mod Payment
pub mod Checkout
pub mod Booking
pub mod Queue
pub mod Tickets
pub mod TicketList
pub mod RowLabel
pub mod Venues
pub mod Events
pub mod EventPage
pub mod Search
pub mod SeatMap
pub mod Reserving
pub mod Wallet
pub mod Paying
pub mod Home
pub mod Login
pub mod Layout
pub mod Organizing
pub mod Security
pub mod Accounts
pub mod HttpErrors
pub mod Broker
pub mod Gateway
pub mod Health
pub mod Json
pub mod Storage
pub mod Client
pub mod IdempotencyKey
pub mod Session
mod Examples
