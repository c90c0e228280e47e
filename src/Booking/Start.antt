-- ===== src/Booking/Start.antt =====
-- Every way in which `start` of backend/src/payments.controller.ts ends, and what a repeated request
-- with the same idempotency key does.
use ki_ticket.Base.{
  ℕ, ◌≡◌, ◌<◌, true, false, not, ◌||◌, none, some, List, [], ◌∷◌, ◌++◌, arith, inl, inr,
  Option-cases, Bool-cases, ==_iff, ◌==◌,
}
use ki_ticket.Outcome.{
  Exception, conflict, require, entity_not_found, Result, ok, err, Result-cases, ok_injective,
}
use ki_ticket.Redis.{Redis}
use ki_ticket.Entities.{Reservation, Payment, ReservationState}
use ki_ticket.World.{
  Repositories, World, AuthenticatedUser, Message, of_payment, emit_user, publish,
}
use ki_ticket.Cancellation.{find_reservation}
use ki_ticket.Payment.{StartPayment, new_payment}
use ki_ticket.Booking.Close.{pending_of_test}
use ki_ticket.Checkout.{start, payable, not_payable, payment_with_key, payment_for}

module _ (D : Repositories) (R : Redis) (now id : ℕ) (user : AuthenticatedUser)
    (body : StartPayment) (w : World D R) where
  abbrev pub fresh : Reservation → Payment
  fresh r = new_payment id r body.idempotency_key

  abbrev pub told : Reservation → List Message
  told r =
      (w.sent ++ emit_user user.sub "payment.started" (of_payment (fresh r)) ∷ [])
      ++ publish "payment.started" (of_payment (fresh r)) user.sub ∷ []

  -- The request is for a reservation of its user.
  abbrev pub Owned : ℕ → Reservation → Type 0
  Owned reservation_id r =
      (find_reservation D reservation_id w.db ≡ some r)
      × (r.user_id ≡ user.sub)
      × (r.id ≡ body.reservation_id)

  abbrev pub Payable : Reservation → Type 0
  Payable r = (r.state ≡ ReservationState.pending) × (now < r.expires_at)

  -- How a run of `start` ends.
  pub data Started : Result Payment → World D R → Type 0 where
    refused_start : (e : Exception) → Started (err e) w
    resumed :
        (p : Payment) (r : Reservation)
        → payment_with_key D body.idempotency_key w.db ≡ some p
        → Owned p.reservation_id r
        → Started (ok p) w
    opened :
        (r : Reservation) (t : D.payments.Table)
        → payment_with_key D body.idempotency_key w.db ≡ none
        → Owned body.reservation_id r × Payable r
        → D.payments.insert w.db.payments (fresh r) ≡ some t
        → Started (ok (fresh r)) (record w { db = record w.db { payments = t }; sent = told r })
    collided :
        (r : Reservation) (p : Payment)
        → payment_with_key D body.idempotency_key w.db ≡ none
        → Owned body.reservation_id r × Payable r
        → D.payments.insert w.db.payments (fresh r) ≡ none
        → payment_for D r.id w.db ≡ some p
        → Started (ok p) w

  abbrev run : Result Payment × World D R
  run = start D R now id user body w

  payable_reads : (payable D now user body w.db).1 ≡ w.db
  payable_reads = ground arith

  owned_of_test :
      (reservation_id : ℕ) (r : Reservation)
      → find_reservation D reservation_id w.db ≡ some r
      → r.id ≡ reservation_id
  owned_of_test reservation_id r e =
      (==_iff r.id reservation_id).0
        (D.reservations.found w.db.reservations (λ x. x.id == reservation_id) r e).1

  Payable-of_test : (r : Reservation) → not_payable D r now ≡ false → Payable r
  Payable-of_test r h = (pending_of_test r.state (ground arith), ground arith)

  payable_ok :
      (r : Reservation)
      → (payable D now user body w.db).0 ≡ ok r
      → Owned body.reservation_id r × Payable r
  payable_ok r h = elim (Option-cases (find_reservation D body.reservation_id w.db)) [
    | inl e ↦ absurd (ground arith)
    | inr (q, e) ↦
        let same : q ≡ r = ok_injective (ground arith) in
        let mine : (q.user_id == user.sub) ≡ true = ground arith in
        let open_still : not_payable D q now ≡ false = ground arith in
        rw (← same) (
          (e, (==_iff q.user_id user.sub).0 mine, owned_of_test body.reservation_id q e),
          Payable-of_test q open_still,
        )
  ]

  resume_cases :
      (p : Payment) → payment_with_key D body.idempotency_key w.db ≡ some p → Started run.0 run.1
  unfolding start
  resume_cases p found = elim (Option-cases (find_reservation D p.reservation_id w.db)) [
    | inl e ↦ rw (found, e) (refused_start entity_not_found)
    | inr (r, e) ↦
        elim (Bool-cases (not (r.user_id == user.sub) || not (r.id == body.reservation_id))) [
          | inl other ↦
              rw (found, e, other)
                (refused_start (conflict "Idempotency key belongs to another request"))
          | inr mine ↦
              rw (found, e, mine)
                (resumed p r found (
                  e,
                  (==_iff r.user_id user.sub).0 (ground arith),
                  (==_iff r.id body.reservation_id).0 (ground arith),
                ))
        ]
  ]

  start_fails :
      (e : Exception)
      → payment_with_key D body.idempotency_key w.db ≡ none
      → (payable D now user body w.db).0 ≡ err e
      → run ≡ (err e, w)
  unfolding start
  start_fails e n h = ground (arith, payable_reads)

  start_collides :
      (r : Reservation)
      → payment_with_key D body.idempotency_key w.db ≡ none
      → (payable D now user body w.db).0 ≡ ok r
      → D.payments.insert w.db.payments (fresh r) ≡ none
      → run ≡ (require (payment_for D r.id w.db) entity_not_found w)
  unfolding start
  start_collides r n h c = ground (arith, payable_reads)

  start_opens :
      (r : Reservation) (t : D.payments.Table)
      → payment_with_key D body.idempotency_key w.db ≡ none
      → (payable D now user body w.db).0 ≡ ok r
      → D.payments.insert w.db.payments (fresh r) ≡ some t
      → run ≡ (ok (fresh r), record w { db = record w.db { payments = t }; sent = told r })
  unfolding start
  start_opens r t n h c = ground (arith, payable_reads)

  collide_cases :
      (r : Reservation)
      → payment_with_key D body.idempotency_key w.db ≡ none
      → (payable D now user body w.db).0 ≡ ok r
      → D.payments.insert w.db.payments (fresh r) ≡ none
      → Started run.0 run.1
  collide_cases r n h c =
      rw (start_collides r n h c) (elim (Option-cases (payment_for D r.id w.db)) [
        | inl e ↦ rw e (refused_start entity_not_found)
        | inr (p, e) ↦ rw e (collided r p n (payable_ok r h) c e)
      ])

  pub start_cases : Started run.0 run.1
  start_cases = elim (Option-cases (payment_with_key D body.idempotency_key w.db)) [
    | inr (p, found) ↦ resume_cases p found
    | inl n ↦ elim (Result-cases (payable D now user body w.db).0) [
      | inr (e, h) ↦ rw (start_fails e n h) (refused_start e)
      | inl (r, h) ↦ elim (Option-cases (D.payments.insert w.db.payments (fresh r))) [
        | inl c ↦ collide_cases r n h c
        | inr (t, c) ↦ rw (start_opens r t n h c) (opened r t n (payable_ok r h) c)
      ]
    ]
  ]
