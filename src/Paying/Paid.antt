-- ===== src/Paying/Paid.antt =====
-- What the checkout page does of a payment, and of one that is tried again.
use ki_ticket.Base.{
  ℕ, String, ◌≡◌, ap, refl, ◌∙◌, ◌⊎◌, inl, inr, true, false, List, [], ◌∷◌, map, In, Bool-cases,
  Option, none, some,
}
use ki_ticket.Entities.{Payment, Ticket}
use ki_ticket.IdempotencyKey.{Draw, idempotency_key}
use ki_ticket.IdempotencyKey.Again.{key_kept}
use ki_ticket.Reserving.{Reply, got, refused}
use ki_ticket.Wallet.{StoredTicket, readable_wallet}
use ki_ticket.Wallet.Keeps.{Keeps}
use ki_ticket.Paying.{
  Request, start_payment, CheckoutPage, Completion, Replies, succeeded, settled, after_completion,
  after_start, pay,
}

-- The first request of a click.
abbrev pub first : List Request → Option Request
first [] = none
first (r ∷ rest) = some r

-- The storage works while a key is drawn.
abbrev pub Works : Draw → Type 0
Works d = (d.readable ≡ true) × (d.writable ≡ true)

after_start-tab :
    (replies : Replies) (page : CheckoutPage) (reply : Reply Payment)
    → (after_start replies page reply).0.tab ≡ page.tab
after_start-tab replies page (refused m) = refl
after_start-tab replies page (got p) = completed replies.completed
  where
    completed : (reply : Reply Completion) → (after_completion replies page reply).0.tab ≡ page.tab
    completed (refused m) = refl
    completed (got c) = elim (Bool-cases (succeeded c.payment.state)) [
      | inl e ↦ rw e refl
      | inr e ↦ rw e refl
    ]

-- A click that does not finish the payment: the server refuses its start or its completion.
abbrev pub Unfinished : Replies → Type 0
Unfinished replies =
    ((m : String) × (replies.started ≡ refused m))
    ⊎ ((p : Payment) × (m : String) × (replies.started ≡ got p) × (replies.completed ≡ refused m))

-- A click that finishes it: the server completes the payment, whether it succeeds or not.
abbrev pub Finished : Replies → Type 0
Finished replies =
    (p : Payment) × (c : Completion) × (replies.started ≡ got p) × (replies.completed ≡ got c)

closed :
    (replies : Replies) (id : ℕ) (page : CheckoutPage)
    → page.terminal ≡ true
    → (pay replies id page).1 ≡ []
unfolding pay
closed replies id page done = rw done refl

pay-first :
    (replies : Replies) (id : ℕ) (page : CheckoutPage)
    → page.terminal ≡ false
    → first (pay replies id page).1
      ≡ some (start_payment id (idempotency_key replies.draw (replies.id_text id) page.tab).0)
unfolding pay
pay-first replies id page open_page = rw open_page refl

settled-terminal :
    (replies : Replies) (page : CheckoutPage) (c : Completion)
    → (settled replies page c).0.terminal ≡ true
settled-terminal replies page c = elim (Bool-cases (succeeded c.payment.state)) [
  | inl e ↦ rw e refl
  | inr e ↦ rw e refl
]

-- Whether the page is still open after the replies.
open_after :
    (replies : Replies) (page : CheckoutPage)
    → page.terminal ≡ false
    → (Unfinished replies × ((after_start replies page replies.started).0.terminal ≡ false))
      ⊎ (Finished replies × ((after_start replies page replies.started).0.terminal ≡ true))
open_after replies page is_open = started replies.started refl
  where
    completed :
        (p : Payment) (reply : Reply Completion)
        → replies.started ≡ got p
        → replies.completed ≡ reply
        → (Unfinished replies × ((after_completion replies page reply).0.terminal ≡ false))
          ⊎ (Finished replies × ((after_completion replies page reply).0.terminal ≡ true))
    completed p (refused m) e f = inl (inr (p, m, e, f), is_open)
    completed p (got c) e f = inr ((p, c, e, f), settled-terminal replies page c)

    started :
        (reply : Reply Payment)
        → replies.started ≡ reply
        → (Unfinished replies × ((after_start replies page reply).0.terminal ≡ false))
          ⊎ (Finished replies × ((after_start replies page reply).0.terminal ≡ true))
    started (refused m) e = inl (inl (m, e), is_open)
    started (got p) e = completed p replies.completed e refl

-- A ticket of the wallet of before, under the id of no new ticket.
abbrev pub IsOld : CheckoutPage → Completion → StoredTicket → Type 0
IsOld page c s =
    In s (readable_wallet page.wallet) × ¬ In s.id (map (λ (t : Ticket). t.id) c.tickets)

module _ (replies : Replies) (id : ℕ) (page : CheckoutPage) where
  pay-tab :
      page.terminal ≡ false
      → (pay replies id page).0.tab ≡ (idempotency_key replies.draw (replies.id_text id) page.tab).1
  unfolding pay
  pay-tab open_page = rw open_page (after_start-tab replies begun replies.started)
    where
      begun : CheckoutPage
      begun = record page {
        loading = true;
        terminal = false;
        error = "";
        tab = (idempotency_key replies.draw (replies.id_text id) page.tab).1;
      }

  after_pay :
      page.terminal ≡ false
      → (Unfinished replies × ((pay replies id page).0.terminal ≡ false))
        ⊎ (Finished replies × ((pay replies id page).0.terminal ≡ true))
  unfolding pay
  after_pay open_page = rw open_page (open_after replies begun refl)
    where
      begun : CheckoutPage
      begun = record page {
        loading = true;
        terminal = false;
        error = "";
        tab = (idempotency_key replies.draw (replies.id_text id) page.tab).1;
      }

  -- Paying again repeats the request: while the storage works and the page is open, a click whose
  -- start or completion the server refuses can be repeated, and the next one starts with the very
  -- same request, under the same idempotency key; after a click whose payment the server completes,
  -- the next one sends nothing.
  pub pay_again :
      (later : Replies)
      → page.terminal ≡ false
      → Works replies.draw
      → Works later.draw
      → later.id_text id ≡ replies.id_text id
      → (Unfinished replies
          × ((key : String) × (first (pay replies id page).1 ≡ some (start_payment id key))
              × (first (pay later id (pay replies id page).0).1 ≡ some (start_payment id key))))
        ⊎ (Finished replies × ((pay later id (pay replies id page).0).1 ≡ []))
  pay_again later open_page works works' same = elim (after_pay open_page) [
    | inr (finished, done) ↦ inr (finished, closed later id (pay replies id page).0 done)
    | inl (unfinished, still) ↦
        let again =
          pay-first later id (pay replies id page).0 still
          ∙ ap (λ key. some (start_payment id key))
              (rw (pay-tab open_page, same)
                (key_kept replies.draw later.draw (replies.id_text id) page.tab works.0 works.1
                  works'.0)) in
        inl (
          unfinished,
          (
            (idempotency_key replies.draw (replies.id_text id) page.tab).0,
            pay-first replies id page open_page,
            again,
          ),
        )
  ]
