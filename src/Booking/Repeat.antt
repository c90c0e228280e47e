-- ===== src/Booking/Repeat.antt =====
-- Repeated requests: `start` of backend/src/payments.controller.ts with a used idempotency key, and
-- `complete` of a payment that is no longer pending.
use ki_ticket.Base.{
  ℕ, String, ◌≡◌, refl, sym, ap, ◌∙◌, true, Option, none, some, arith, inl, inr, Option-cases,
  ==_iff, ◌==◌, eq_iff,
}
use ki_ticket.Outcome.{Result, ok, ok_injective}
use ki_ticket.Redis.{Redis}
use ki_ticket.Entities.{Reservation, Payment, same_text}
use ki_ticket.World.{Repositories, World, AuthenticatedUser}
use ki_ticket.Cancellation.{find_reservation}
use ki_ticket.Payment.{StartPayment, new_payment}
use ki_ticket.Checkout.{start, payment_with_key}
use ki_ticket.Booking.Start.{Started, refused_start, resumed, opened, collided, start_cases, told}

same_text_iff : (o : Option String) (s : String) → same_text o (some s) ≡ true → o ≡ some s
same_text_iff none s h = cc
same_text_iff (some t) s h = ap some ((eq_iff t s).0 h)

same_text_self : (s : String) → same_text (some s) (some s) ≡ true
same_text_self s = (eq_iff s s).1 refl

module _ (D : Repositories) (R : Redis) (user : AuthenticatedUser) (body : StartPayment) where
  -- A request whose key belongs to its own payment gets that payment.
  resume_run :
      (now id : ℕ) (w : World D R) (p : Payment) (r : Reservation)
      → payment_with_key D body.idempotency_key w.db ≡ some p
      → find_reservation D p.reservation_id w.db ≡ some r
      → r.user_id ≡ user.sub
      → r.id ≡ body.reservation_id
      → start D R now id user body w ≡ (ok p, w)
  unfolding start
  resume_run now id w p r found linked mine named =
      ground (arith, ==_iff r.user_id user.sub, ==_iff r.id body.reservation_id)

  key_found :
      (w : World D R) (r : Reservation) (id : ℕ) (t : D.payments.Table)
      → D.payments.insert w.db.payments (new_payment id r body.idempotency_key) ≡ some t
      → payment_with_key D body.idempotency_key (record w.db { payments = t })
        ≡ some (new_payment id r body.idempotency_key)
  key_found w r id t inserted =
      let p : Payment = new_payment id r body.idempotency_key in
      let there : D.payments.get t id ≡ some p =
        ground (arith, D.payments.get-insert w.db.payments p t id inserted) in
      elim (Option-cases
        (D.payments.find_one_by t (λ q. same_text q.idempotency_key (some body.idempotency_key)))) [
          | inl e ↦ absurd (
              cc (
                same_text_self body.idempotency_key,
                D.payments.missing t (λ q. same_text q.idempotency_key (some body.idempotency_key))
                    id p e there,
              ))
          | inr (q, e) ↦
              let f =
                D.payments.found t (λ q. same_text q.idempotency_key (some body.idempotency_key)) q
                  e in
              let one : q.id ≡ id =
                D.payments.unique t q.id id q p f.0 there (ground (arith, f.1)) in
              e ∙ (sym f.0 ∙ (ap (D.payments.get t) one ∙ there))
        ]

  repeat_of :
      (now id now' id' : ℕ) (w w' : World D R) (p : Payment) (out : Result Payment)
      → Started D R now id user body w out w'
      → out ≡ ok p
      → p.idempotency_key ≡ some body.idempotency_key
      → start D R now' id' user body w' ≡ (ok p, w')
  repeat_of now id now' id' w w' p out (refused_start e) h k = cc
  repeat_of now id now' id' w w' p out (resumed q r found (linked, mine, named)) h k =
      rw (sym (ok_injective h)) (resume_run now' id' w q r found linked mine named)
  repeat_of now id now' id' w w' p out (opened r t n ((linked, mine, named), o) c) h k =
      rw (sym (ok_injective h)) (
        resume_run now' id'
          (record w { db = record w.db { payments = t }; sent = told D R now id user body w r })
          (new_payment id r body.idempotency_key) r (key_found w r id t c)
          (ap (λ (i : ℕ). find_reservation D i w.db) named ∙ linked) mine named)
  repeat_of now id now' id' w w' p out (collided r q n o c e) h k =
      let f = D.payments.found w.db.payments (λ x. x.reservation_id == r.id) q e in
      let no =
        D.payments.missing w.db.payments
          (λ x. same_text x.idempotency_key (some body.idempotency_key)) q.id q n f.0 in
      absurd (
        cc (
          no,
          ap (λ (o : Option String). same_text o (some body.idempotency_key))
              (ap (λ (x : Payment). x.idempotency_key) (ok_injective h) ∙ k),
          same_text_self body.idempotency_key,
        ))

  -- `start` is idempotent: when a request has returned a payment that has its key, the same request
  -- made again, at any time, returns that payment and changes and announces nothing.
  pub start_repeated :
      (now id now' id' : ℕ) (w : World D R) (p : Payment)
      → (start D R now id user body w).0 ≡ ok p
      → p.idempotency_key ≡ some body.idempotency_key
      → start D R now' id' user body (start D R now id user body w).1
        ≡ (ok p, (start D R now id user body w).1)
  start_repeated now id now' id' w p h k =
      repeat_of now id now' id' w (start D R now id user body w).1 p
        (start D R now id user body w).0 (start_cases D R now id user body w) h k
