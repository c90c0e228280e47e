-- ===== src/Booking.antt =====
-- The life of a booking in the tables: what the transactions of
-- backend/src/reservations.controller.ts and backend/src/payments.controller.ts do to the rows, and
-- the invariant that they keep.
pub mod Invariant
pub mod Book
pub mod Release
pub mod Close
pub mod Pay
pub mod Issue
pub mod Returned
pub mod Complete
pub mod Conclude
pub mod Offer
pub mod Create
pub mod Reserved
pub mod Ends
pub mod Start
pub mod Repeat
pub mod Replay
pub mod Steps
pub mod Requests
pub mod Sweep
pub mod Service
