-- ===== src/Reserving/Polling.antt =====
-- The wait for the admission: its bounds, and what it is good for.
use ki_ticket.Base.{
  ℕ, String, zero, suc, ◌+◌, ◌*◌, ◌≤◌, ◌≡◌, ap, refl, arith, Bool, true, false, Option, some, List,
  [], ◌∷◌, ◌++◌, Bool-cases, Option-cases, inl, inr, In,
}
use ki_ticket.Entities.{Reservation, is_queued}
use ki_ticket.Reserving.{
  Reply, got, refused, Admission, join, status, reserve_seats, Act, sent, waited, Page, checkout,
  Replies, Shown, Phase, pause, on_reply, poll, token_of, proceed, begin_wait, reserve,
}

abbrev pub count_statuses : List Act → ℕ
count_statuses [] = 0
count_statuses (sent (status id) ∷ rest) = suc (count_statuses rest)
count_statuses (sent (join id) ∷ rest) = count_statuses rest
count_statuses (sent (reserve_seats id seats token) ∷ rest) = count_statuses rest
count_statuses (waited t ∷ rest) = count_statuses rest

abbrev pub count_reservations : List Act → ℕ
count_reservations [] = 0
count_reservations (sent (status id) ∷ rest) = count_reservations rest
count_reservations (sent (join id) ∷ rest) = count_reservations rest
count_reservations (sent (reserve_seats id seats token) ∷ rest) = suc (count_reservations rest)
count_reservations (waited t ∷ rest) = count_reservations rest

abbrev pub waiting_time : List Act → ℕ
waiting_time [] = 0
waiting_time (sent r ∷ rest) = waiting_time rest
waiting_time (waited t ∷ rest) = t + waiting_time rest

abbrev Bounded : ℕ → List Act → Type 0
Bounded n acts =
    (count_statuses acts ≤ n) × (count_reservations acts ≡ 0) × (waiting_time acts ≤ 5000 * n)

pause-le : (attempt : ℕ) → pause attempt ≤ 5000
pause-le attempt = ground arith

on_reply-Bounded :
    (n : ℕ) (go : Admission → Reply Admission × List Act) (reply : Reply Admission)
    → ((next : Admission) → Bounded n (go next).1)
    → Bounded n (on_reply go reply).1
on_reply-Bounded n go (refused m) h = omega arith
on_reply-Bounded n go (got next) h = h next

poll-Bounded :
    (statuses : ℕ → Reply Admission) (left attempt : ℕ) (a : Admission)
    → Bounded left (poll statuses left attempt a).1
unfolding poll
poll-Bounded statuses zero attempt a = omega arith
poll-Bounded statuses (suc left) attempt a = elim (Bool-cases (is_queued a.state)) [
  | inr e ↦ rw e (omega arith)
  | inl e ↦
      let rest =
        on_reply-Bounded left (poll statuses left (attempt + 1)) (statuses attempt)
          (poll-Bounded statuses left (attempt + 1)) in
      rw e (omega (arith, pause-le attempt, rest.0, rest.1, rest.2))
]

begin_wait-Bounded :
    (replies : Replies) (reply : Reply Admission) → Bounded 60 (begin_wait replies reply).1
begin_wait-Bounded replies (refused m) = omega arith
begin_wait-Bounded replies (got a) = poll-Bounded replies.statuses 60 0 a

-- After the wait there is at most the reservation.
proceed-acts :
    (replies : Replies) (event_id : ℕ) (event : Option Shown) (seat_ids : List ℕ) (page : Page)
    (reply : Reply Admission)
    → (count_statuses (proceed replies event_id event seat_ids page reply).1 ≡ 0)
      × (count_reservations (proceed replies event_id event seat_ids page reply).1 ≤ 1)
      × (waiting_time (proceed replies event_id event seat_ids page reply).1 ≡ 0)
proceed-acts replies event_id event seat_ids page (refused m) = omega arith
proceed-acts replies event_id event seat_ids page (got a) = elim (Option-cases (token_of a)) [
  | inl n ↦ rw n (omega arith)
  | inr (t, k) ↦ rw k (omega arith)
]

count_statuses-append :
    (xs ys : List Act) → count_statuses (xs ++ ys) ≡ count_statuses xs + count_statuses ys
count_statuses-append [] ys = omega arith
count_statuses-append (sent (status id) ∷ xs) ys = omega (arith, count_statuses-append xs ys)
count_statuses-append (sent (join id) ∷ xs) ys = count_statuses-append xs ys
count_statuses-append (sent (reserve_seats id seats token) ∷ xs) ys = count_statuses-append xs ys
count_statuses-append (waited t ∷ xs) ys = count_statuses-append xs ys

count_reservations-append :
    (xs ys : List Act)
    → count_reservations (xs ++ ys) ≡ count_reservations xs + count_reservations ys
count_reservations-append [] ys = omega arith
count_reservations-append (sent (status id) ∷ xs) ys = count_reservations-append xs ys
count_reservations-append (sent (join id) ∷ xs) ys = count_reservations-append xs ys
count_reservations-append (sent (reserve_seats id seats token) ∷ xs) ys =
    omega (arith, count_reservations-append xs ys)
count_reservations-append (waited t ∷ xs) ys = count_reservations-append xs ys

waiting_time-append :
    (xs ys : List Act) → waiting_time (xs ++ ys) ≡ waiting_time xs + waiting_time ys
waiting_time-append [] ys = omega arith
waiting_time-append (sent r ∷ xs) ys = waiting_time-append xs ys
waiting_time-append (waited t ∷ xs) ys = omega (arith, waiting_time-append xs ys)

-- A click on the button that reserves ends: whatever the server replies, it polls the waiting room
-- at most sixty times, waits five minutes at most between the polls, and sends one reservation
-- request at most.
pub reserve_bounds :
    (replies : Replies) (signed_in : Bool) (event_id : ℕ) (event : Option Shown) (seat_ids : List ℕ)
    (page : Page)
    → (count_statuses (reserve replies signed_in event_id event seat_ids page).1 ≤ 60)
      × (count_reservations (reserve replies signed_in event_id event seat_ids page).1 ≤ 1)
      × (waiting_time (reserve replies signed_in event_id event seat_ids page).1 ≤ 300000)
unfolding reserve
reserve_bounds replies false event_id event seat_ids page = omega arith
reserve_bounds replies true event_id event seat_ids page =
    let begun = record page { error = ""; phase = Phase.waiting } in
    let waits = begin_wait-Bounded replies replies.joined in
    let after =
      proceed-acts replies event_id event seat_ids begun (begin_wait replies replies.joined).0 in
    let acts =
      (proceed replies event_id event seat_ids begun (begin_wait replies replies.joined).0).1 in
    (
      omega (
        arith,
        count_statuses-append (begin_wait replies replies.joined).1 acts,
        waits.0,
        after.0,
      ),
      omega (
        arith,
        count_reservations-append (begin_wait replies replies.joined).1 acts,
        waits.1,
        after.1,
      ),
      omega
          (arith, waiting_time-append (begin_wait replies replies.joined).1 acts, waits.2, after.2),
    )

-- The entry of the first reply is still queued after `n` polls, when the reply is the last one.
abbrev pub Waits : (ℕ → Reply Admission) → ℕ → ℕ → Admission → Admission → Type 0
Waits statuses zero attempt a b = a ≡ b
Waits statuses (suc n) attempt a b =
    (is_queued a.state ≡ true)
    × ((c : Admission) × (statuses attempt ≡ got c) × Waits statuses n (attempt + 1) c b)

poll-Waits :
    (statuses : ℕ → Reply Admission) (left n attempt : ℕ) (a b : Admission)
    → n ≤ left
    → Waits statuses n attempt a b
    → is_queued b.state ≡ false
    → (poll statuses left attempt a).0 ≡ got b
unfolding poll
poll-Waits statuses zero zero attempt a b le w q = ap got w
poll-Waits statuses zero (suc n) attempt a b le w q = absurd (omega arith)
poll-Waits statuses (suc left) zero attempt a b le w q = rw (w, q) refl
poll-Waits statuses (suc left) (suc n) attempt a b le (queued, (c, reply, w)) q =
    rw (queued, reply) (poll-Waits statuses left n (attempt + 1) c b (omega arith) w q)

token_of-queued : (a : Admission) (t : String) → token_of a ≡ some t → is_queued a.state ≡ false
token_of-queued a t h = ground arith

In-append : {A : Type 0} (x : A) (xs ys : List A) → In x ys → In x (xs ++ ys)
In-append x [] ys m = m
In-append x (z ∷ xs) ys m = inr (In-append x xs ys m)

-- Who is admitted in time gets to the checkout: if the entry is queued after each of at most sixty
-- polls but the last, which admits it with a token, and the reservation is made and stored, then
-- the page has sent the reservation request with that token and goes to the checkout of the
-- reservation.
pub reserve-checkout :
    (replies : Replies) (event_id : ℕ) (event : Option Shown) (seat_ids : List ℕ) (page : Page)
    (n : ℕ) (a b : Admission) (token : String) (r : Reservation)
    → replies.joined ≡ got a
    → Waits replies.statuses n 0 a b
    → n ≤ 60
    → token_of b ≡ some token
    → replies.reserved ≡ got r
    → replies.keeps_reservation ≡ true
    → ((reserve replies true event_id event seat_ids page).0.place ≡ checkout r.id)
      × In
          (sent (reserve_seats event_id seat_ids token))
          (reserve replies true event_id event seat_ids page).1
unfolding reserve
reserve-checkout replies event_id event seat_ids page n a b token r joined w le k reserved keeps =
    let last : (begin_wait replies replies.joined).0 ≡ got b =
      rw joined (poll-Waits replies.statuses 60 n 0 a b le w (token_of-queued b token k)) in
    (
      rw (last, k, reserved, keeps) refl,
      inr (In-append _ (begin_wait replies replies.joined).1 _ (rw (last, k) (inl refl))),
    )
