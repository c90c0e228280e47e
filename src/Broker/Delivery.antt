-- ===== src/Broker/Delivery.antt =====
-- How a delivery to the consumer of the notifications ends.
use ki_ticket.Base.{ℕ, String, ◌≡◌, ap, ◌∙◌, refl, true, Option, none, some, Option-cases, inl, inr}
use ki_ticket.World.{Repositories, Db}
use ki_ticket.Broker.{
  DomainEvent, Settlement, ack, nack, NotificationDraw, new_notification, notify, consume,
}

module _ (D : Repositories) where
  -- How a delivery is settled, by what it holds.
  pub data Delivered (parse : String → Option DomainEvent) (draw : NotificationDraw)
      (content : String) (db : Db D) : Settlement → Db D → Type 0 where
    unreadable : parse content ≡ none → Delivered parse draw content db nack db
    malformed :
        (event : DomainEvent)
        → parse content ≡ some event
        → event.payload ≡ none
        → Delivered parse draw content db nack db
    for_nobody :
        (event : DomainEvent)
        → parse content ≡ some event
        → event.payload ≡ some none
        → Delivered parse draw content db ack db
    not_stored :
        (event : DomainEvent) (user_id : ℕ)
        → parse content ≡ some event
        → event.payload ≡ some (some user_id)
        → D.notifications.insert db.notifications (new_notification draw event user_id) ≡ none
        → Delivered parse draw content db nack db
    notified :
        (event : DomainEvent) (user_id : ℕ) (t : D.notifications.Table)
        → parse content ≡ some event
        → event.payload ≡ some (some user_id)
        → D.notifications.insert db.notifications (new_notification draw event user_id) ≡ some t
        → Delivered parse draw content db ack (record db { notifications = t })

  -- settled
  pub consume_settles :
      (parse : String → Option DomainEvent) (draw : NotificationDraw) (content : String) (db : Db D)
      → (s : Settlement) × ((consume D parse true draw (some content) db).0 ≡ some s)
        × Delivered parse draw content db s (consume D parse true draw (some content) db).1
  unfolding consume
  consume_settles parse draw content db = elim (Option-cases (parse content)) [
    | inl n ↦ (nack, rw n refl, rw n (unreadable n))
    | inr (event, p) ↦ elim (Option-cases event.payload) [
      | inl n ↦ (nack, rw (p, n) refl, rw (p, n) (malformed event p n))
      | inr (user, q) ↦ elim (Option-cases user) [
        | inl n ↦
            let q' : event.payload ≡ some none = q ∙ ap some n in
            (ack, rw (p, q') refl, rw (p, q') (for_nobody event p q'))
        | inr (user_id, m) ↦
            let q' : event.payload ≡ some (some user_id) = q ∙ ap some m in
            elim (Option-cases
              (D.notifications.insert db.notifications (new_notification draw event user_id))) [
                | inl n ↦ (
                  nack,
                  rw (p, q', notify, n) refl,
                  rw (p, q', notify, n) (not_stored event user_id p q' n),
                )
                | inr (t, k) ↦ (
                  ack,
                  rw (p, q', notify, k) refl,
                  rw (p, q', notify, k) (notified event user_id t p q' k),
                )
              ]
      ]
    ]
  ]
