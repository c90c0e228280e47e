-- ===== src/Layout.antt =====
-- The frame of the pages, frontend/src/components/Layout.tsx: its links, and the notice that a
-- message of the socket raises for a while.
pub mod Notices
use ki_ticket.Base.{
  ℕ, ◌+◌, ◌≤◌, String, ◌≡◌, refl, arith, Bool, true, false, Bool-cases, Option, none, some, List,
  [], ◌∷◌, inl, inr, ◌||◌, ltb, leb, str_eq, if◌then◌else◌,
}
use ki_ticket.Entities.{Role, customer}

abbrev pub manage_links : Role → List String
manage_links customer = []
manage_links role = "/manage" ∷ []

-- The links of the header, by the role of the session.
unfoldable pub links : Option Role → List String
links none = "/" ∷ []
links (some role) = "/" ∷ "/tickets" ∷ manage_links role

-- The messages that raise a notice.
abbrev pub raises_notice : String → Bool
raises_notice name =
    str_eq name "payment.started"
    || str_eq name "payment.succeeded"
    || str_eq name "payment.failed"
    || str_eq name "ticket.issued"

-- `live`, and the instant of the timer that clears it.
pub record Notice : Type 0 where
  pub live : String
  pub clears_at : Option ℕ

abbrev pub silent : Notice
silent = record { live = ""; clears_at = none }

-- The timer, when it is due.
abbrev pub clear_due : ℕ → Notice → Option ℕ → Notice
clear_due now notice none = notice
clear_due now notice (some t) = if leb t now then silent else notice

unfoldable pub on_clock : ℕ → Notice → Notice
on_clock now notice = clear_due now notice notice.clears_at

-- A message of the socket: the timer of before is cleared.
unfoldable pub on_socket : ℕ → String → Notice → Notice
on_socket now name notice =
    if raises_notice name then record { live = name; clears_at = some (now + 3500) } else notice

-- The messages of a session, each with its instant.
abbrev pub History : Type 0
History = List (ℕ × String)

abbrev pub after_messages : History → Notice → Notice
after_messages [] notice = notice
after_messages ((t, name) ∷ rest) notice =
    after_messages rest (on_socket t name (on_clock t notice))
