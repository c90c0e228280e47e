-- ===== src/Paying.antt =====
-- The checkout page of frontend/src/components/Checkout.tsx: the countdown, `pay` and `cancel`.
-- The Persian messages stand in English.
pub mod Paid
use ki_ticket.Base.{
  ℕ, ◌+◌, ◌-◌, ◌/◌, String, Bool, true, false, not, ◌&&◌, ◌||◌, Option, none, some, List, [], ◌∷◌,
  ◌++◌, map, ◌==◌, if◌then◌else◌,
}
use ki_ticket.Entities.{Payment, PaymentState, Reservation, Ticket}
use ki_ticket.PaymentPolicy.{PaymentOutcome}
use ki_ticket.IdempotencyKey.{Tab, Draw, idempotency_key}
use ki_ticket.Reserving.{Reply, got, refused, StoredReservation}
use ki_ticket.Wallet.{StoredTicket, stored_ticket, merged, readable_wallet}

pub data Request : Type 0 where
  start_payment : (reservation_id : ℕ) (idempotency_key : String) → Request
  complete_payment : (payment_id : ℕ) → PaymentOutcome → Request
  read_qr : (ticket_id : ℕ) → Request
  cancel_reservation : (reservation_id : ℕ) → Request

pub data Place : Type 0 where
  stay tickets : Place
  event_page : (event_id : ℕ) → Place

-- The state of the component, what the tab keeps, and where the page navigates. `wallet` is the
-- entry "narm-tickets-…" of the local storage, `none` if it cannot be read, and `stored` the entry
-- "narm-reservation".
pub record CheckoutPage : Type 0 where
  pub outcome : PaymentOutcome
  pub loading : Bool
  pub terminal : Bool
  pub error : String
  pub reservation : StoredReservation
  pub tab : Tab
  pub wallet : Option (List StoredTicket)
  pub stored : Option StoredReservation
  pub place : Place

abbrev pub is_for : ℕ → Option StoredReservation → Bool
is_for reservation_id none = false
is_for reservation_id (some r) = r.reservation.id == reservation_id

abbrev pub asked : Option StoredReservation → Reply StoredReservation → Option StoredReservation
asked kept (got r) = some r
asked kept (refused message) = kept

-- The reservation of the page: `kept` is what `readReservation` finds, where an entry that cannot be
-- parsed is `none`; the effect asks the server for one that the tab does not keep.
unfoldable pub recovered :
    (signed_in : Bool)
    → Option StoredReservation
    → ℕ
    → Reply StoredReservation
    → Option StoredReservation
recovered signed_in kept reservation_id reply =
    if signed_in && not (is_for reservation_id kept) then asked kept reply else kept

-- `Math.max(0, Math.ceil((expiresAt - now) / 1000))`
abbrev pub remaining_seconds : (expires_at now : ℕ) → ℕ
remaining_seconds expires_at now = (expires_at - now + 999) / 1000

-- The buttons are enabled.
abbrev pub may_pay : CheckoutPage → ℕ → Bool
may_pay page now = not (
    page.loading
    || page.terminal
    || remaining_seconds page.reservation.reservation.expires_at now == 0)

abbrev pub may_cancel : CheckoutPage → Bool
may_cancel page = not (page.loading || page.terminal)

-- The answer to the completion of a payment.
pub record Completion : Type 0 where
  pub payment : Payment
  pub tickets : List Ticket

-- The replies of the server, the draw of an idempotency key with the text of a reservation's id,
-- and whether the storages take what they are given.
pub record Replies : Type 0 where
  pub started : Reply Payment
  pub completed : Reply Completion
  pub qr : ℕ → Reply String
  pub cancelled : Reply (Unit {0})
  pub draw : Draw
  pub id_text : ℕ → String
  pub keeps_wallet : Bool
  pub removes : Bool

abbrev pub succeeded : PaymentState → Bool
succeeded PaymentState.success = true
succeeded _ = false

abbrev pub end_message : PaymentState → String
end_message PaymentState.timeout = "The reservation ran out; the seats are free again"
end_message _ = "The payment failed; the seats are free again"

abbrev pub new_tickets : Replies → CheckoutPage → Completion → List StoredTicket
new_tickets replies page c =
    map (stored_ticket replies.qr page.reservation.event_title page.reservation.seats) c.tickets

-- What follows the reply to the completion.
abbrev pub settled : Replies → CheckoutPage → Completion → CheckoutPage × List Request
settled replies page c =
    if succeeded c.payment.state
    then (
      record page {
        terminal = true;
        wallet =
            if replies.keeps_wallet
            then some (merged (readable_wallet page.wallet) (new_tickets replies page c))
            else page.wallet;
        stored = if replies.removes then none else page.stored;
        place = tickets;
      },
      map (λ (t : Ticket). read_qr t.id) c.tickets,
    )
    else (record page { terminal = true; error = end_message c.payment.state }, [])

abbrev pub after_completion :
    Replies → CheckoutPage → Reply Completion → CheckoutPage × List Request
after_completion replies page (refused message) = (record page { error = message }, [])
after_completion replies page (got c) = settled replies page c

abbrev pub prefixed : Request → CheckoutPage × List Request → CheckoutPage × List Request
prefixed r (page, rest) = (page, r ∷ rest)

abbrev pub after_start : Replies → CheckoutPage → Reply Payment → CheckoutPage × List Request
after_start replies page (refused message) = (record page { error = message }, [])
after_start replies page (got payment) =
    prefixed (complete_payment payment.id page.outcome)
      (after_completion replies page replies.completed)

-- `finally`
abbrev pub finished : CheckoutPage × List Request → CheckoutPage × List Request
finished (page, requests) = (record page { loading = false }, requests)

unfoldable pub pay : Replies → ℕ → CheckoutPage → CheckoutPage × List Request
pay replies reservation_id page =
    if page.terminal
    then (page, [])
    else let (key, tab) = idempotency_key replies.draw (replies.id_text reservation_id) page.tab in
      let begun = record page { loading = true; error = ""; tab = tab } in
      finished
        (prefixed (start_payment reservation_id key) (after_start replies begun replies.started))

abbrev pub after_cancel : Replies → CheckoutPage → Reply (Unit {0}) → CheckoutPage
after_cancel replies page (refused message) = record page { error = message }
after_cancel replies page (got u) = record page {
  stored = if replies.removes then none else page.stored;
  place = event_page page.reservation.reservation.event_id;
}

unfoldable pub cancel : Replies → ℕ → CheckoutPage → CheckoutPage × List Request
cancel replies reservation_id page =
    if page.terminal
    then (page, [])
    else finished (
      after_cancel replies (record page { loading = true; error = "" }) replies.cancelled,
      cancel_reservation reservation_id ∷ [],
    )
