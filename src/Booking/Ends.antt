-- ===== src/Booking/Ends.antt =====
-- How a run of `create` of backend/src/reservations.controller.ts ends: the reservation is made, or no
-- trace is left.
use ki_ticket.Base.{ℕ, ◌+◌, ◌<◌, ◌≤◌, ◌≡◌, refl, sym, ◌∙◌, true, some, arith, In, In-has}
use ki_ticket.Outcome.{Exception, Result, ok, err, ok_injective}
use ki_ticket.Redis.{Redis, Key}
use ki_ticket.Lock.{key, ttl_ms}
use ki_ticket.Lock.Atomicity.{get-acquire, acquire-release}
use ki_ticket.Entities.{Reservation}
use ki_ticket.World.{Repositories, World, AuthenticatedUser}
use ki_ticket.Reservation.{Surroundings, CreateReservation, create}
use ki_ticket.Booking.Create.{Created, refused, rolled_back, reserved, create_cases}
use ki_ticket.Booking.Reserved.{Reserved, Reserved-facts, booked_reservation}

module _ (D : Repositories) (R : Redis) (around : Surroundings) (user : AuthenticatedUser)
    (body : CreateReservation) (w : World D R) where
  Reserved-Created :
      (out : Result Reservation) (w' : World D R) (r : Reservation)
      → Created D R around user body w out w'
      → out ≡ ok r
      → Reserved D R around user body w r w'
  Reserved-Created out w' r (refused e) h = cc
  Reserved-Created out w' r (rolled_back offer e k b) h = cc
  Reserved-Created out w' r (reserved offer s c k b) h =
      rw (sym (ok_injective h)) (Reserved-facts D R around user body w offer s c k b)

  -- A run of `create` that returns a reservation has reserved: the request passed the checks, each
  -- of its seats is named once, is for sale and had no row for the event, and now the reservation
  -- is stored as pending at the sum of its seats' prices, each seat has its locked row, and the two
  -- messages are sent.
  pub create-Reserved :
      (r : Reservation)
      → (create D R around user body w).0 ≡ ok r
      → Reserved D R around user body w r (create D R around user body w).1
  create-Reserved r h =
      Reserved-Created (create D R around user body w).0 (create D R around user body w).1 r
        (create_cases D R around user body w) h

  -- What a failed run leaves: the tables, the messages and, at a later instant, every key.
  abbrev pub Untouched : ℕ → World D R → Type 0
  Untouched later w' =
      (w'.db ≡ w.db)
      × (w'.sent ≡ w.sent)
      × ((k : Key) → R.get w'.store later k ≡ R.get w.store later k)

  Untouched-Created :
      (out : Result Reservation) (w' : World D R) (later : ℕ) (e : Exception)
      → 0 < around.lock_ttl_seconds
      → around.acquire_call.now ≤ around.release_call.now
      → around.release_call.now ≤ later
      → around.release_call.reached ≡ true
      → Created D R around user body w out w'
      → out ≡ err e
      → Untouched later w'
  Untouched-Created out w' later e p q s up (refused x) h = (refl, refl, λ k. refl)
  Untouched-Created out w' later e p q s up (rolled_back offer x k b) h = (
    refl,
    refl,
    λ j.
        acquire-release R around.acquire_call around.release_call around.lock_ttl_seconds offer.0.id
          body.seat_ids around.id w.store later j p q s up k,
  )
  Untouched-Created out w' later e p q s up (reserved offer r c k b) h = cc

  -- A run of `create` that throws leaves no trace: with a positive time to live, and if the release
  -- can reach Redis and its instant is not before that of the acquisition, the tables and the
  -- messages are as before, and from the release on each key has the value that it would have had.
  pub create-Untouched :
      (later : ℕ) (e : Exception)
      → 0 < around.lock_ttl_seconds
      → around.acquire_call.now ≤ around.release_call.now
      → around.release_call.now ≤ later
      → around.release_call.reached ≡ true
      → (create D R around user body w).0 ≡ err e
      → Untouched later (create D R around user body w).1
  create-Untouched later e p q s up h =
      Untouched-Created (create D R around user body w).0 (create D R around user body w).1 later e
        p q s up (create_cases D R around user body w) h

  -- The lock of a seat, at an instant, after a run that returned.
  Locked-Created :
      (out : Result Reservation) (w' : World D R) (r : Reservation) (later x : ℕ)
      → 0 < around.lock_ttl_seconds
      → around.acquire_call.now ≤ later
      → later < around.acquire_call.now + ttl_ms around.lock_ttl_seconds
      → In x body.seat_ids
      → Created D R around user body w out w'
      → out ≡ ok r
      → R.get w'.store later (key r.event_id x) ≡ some r.id
  Locked-Created out w' r later x p q s m (refused e) h = cc
  Locked-Created out w' r later x p q s m (rolled_back offer e k b) h = cc
  Locked-Created out w' r later x p q s m (reserved (event, pricing, prices) y c k b) h =
      let same =
        booked_reservation D around user.sub event.id pricing prices body.seat_ids w.db y b in
      rw (sym (ok_injective h), same)
        (get-acquire R around.acquire_call around.lock_ttl_seconds event.id body.seat_ids around.id
            w.store later (key event.id x) p q k
          ∙ ground (arith, In-has x body.seat_ids m))

  -- A run of `create` that returns a reservation holds the lock of each of its seats for the whole
  -- time to live, which is positive, under the reservation's id.
  pub create-Locked :
      (r : Reservation) (later x : ℕ)
      → 0 < around.lock_ttl_seconds
      → around.acquire_call.now ≤ later
      → later < around.acquire_call.now + ttl_ms around.lock_ttl_seconds
      → In x body.seat_ids
      → (create D R around user body w).0 ≡ ok r
      → R.get (create D R around user body w).1.store later (key r.event_id x) ≡ some r.id
  create-Locked r later x p q s m h =
      Locked-Created (create D R around user body w).0 (create D R around user body w).1 r later x p
        q s m (create_cases D R around user body w) h
