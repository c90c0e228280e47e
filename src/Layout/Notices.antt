-- ===== src/Layout/Notices.antt =====
-- Which notice the frame of the pages shows.
use ki_ticket.Base.{
  List, Bool, any, str_eq, ℕ, ◌+◌, ◌≤◌, String, ◌≡◌, ◌⊎◌, Option, none, some, [], ◌∷◌, ltb,
  if◌then◌else◌,
}
use ki_ticket.Layout.{Notice, silent, History}

-- The messages are not later than an instant.
abbrev pub Until : ℕ → History → Type 0
Until now [] = Unit {0}
Until now ((t, name) ∷ rest) = (t ≤ now) × Until now rest

-- What a customer is told of: payments that start, succeed or fail, and new tickets.
abbrev pub noticed : List String
noticed = "ticket.issued" ∷ "payment.started" ∷ "payment.failed" ∷ "payment.succeeded" ∷ []

abbrev pub is_noticed : String → Bool
is_noticed name = any (str_eq name) noticed

-- The last message that raises a notice, after one of before.
abbrev pub last_notice : History → Option (ℕ × String) → Option (ℕ × String)
last_notice [] before = before
last_notice ((t, name) ∷ rest) before =
    last_notice rest (if is_noticed name then some (t, name) else before)

abbrev pub visible : ℕ → Option (ℕ × String) → String
visible now none = ""
visible now (some (t, name)) = if ltb now (t + 3500) then name else ""

abbrev pub notice_of : ℕ → String → Notice
notice_of t name = record { live = name; clears_at = some (t + 3500) }

-- A notice stands for a message, until its time is up.
abbrev StandsFor : ℕ → Option (ℕ × String) → Notice → Type 0
StandsFor now none notice = notice ≡ silent
StandsFor now (some (t, name)) notice =
    (notice ≡ notice_of t name) ⊎ ((notice ≡ silent) × (t + 3500 ≤ now))
