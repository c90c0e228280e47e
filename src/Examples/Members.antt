-- ===== src/Examples/Members.antt =====
-- Members of the shop: a registration with its login, the session of the web application, the
-- listings, a socket and an error.
use Prim.Native.String.{◌++◌ as concat}
use ki_ticket.Base.{
  ℕ, Distinct, sort_by, subst, sym, ◌∙◌, inl, inr, String, ◌≡◌, ◌↔◌, refl, Bool, true, none, some,
  Option, List, [], ◌∷◌, arith, In, Ordered, length, str_eq, if◌then◌else◌, ◌==◌,
}
use ki_ticket.Outcome.{ok}
use ki_ticket.Database.{list_repository}
use ki_ticket.Entities.{Event, Reservation, Ticket}
use ki_ticket.World.{AuthenticatedUser, of_ticket_ids, emit_user}
use ki_ticket.Json.{Json, text, array, object, nil, cons, end, field, numeral}
use ki_ticket.Client.{error_message}
use ki_ticket.HttpErrors.{Thrown, http, detailed, answer_to, status_and_message}
use ki_ticket.HttpErrors.Reading.{in_one, field_of, error_message-answer}
use ki_ticket.Gateway.{subscribe, serve, handle_connection, receives}
use ki_ticket.Gateway.Rooms.{new_socket, receives-emit_user}
use ki_ticket.Accounts.{Register, Libraries, UserSummary, register, login, new_user, claims_of}
use ki_ticket.Accounts
use ki_ticket.Accounts.SignIn.{register-login}
use ki_ticket.Session.{
  Session, Page, Browser, is_expired, session_object, usable, named, read_session,
}
use ki_ticket.Reserving.{got}
use ki_ticket.Login.{Navigation, registering, LoginPage, AuthResponse, session_of, leaves, Target}
use ki_ticket.Login
use ki_ticket.Login.Kept.{IsWithin, after_login, submit_login-read_session}
use ki_ticket.TicketList.{ListedTicket, list_tickets}
use ki_ticket.TicketList.Own.{IsOwn, list_tickets_exact}
use ki_ticket.Search.{EventQuery, EventPage, list_events, listed_at, starts_before}
use ki_ticket.Search.Arranged.{StartApart, sort_by-Arrangement}
use ki_ticket.Search.Pages.{found, items_from, list_events-pages}
use ki_ticket.Examples.Shop.{shop, opening, ada, concert}
use ki_ticket.Examples.Requests.{completing}

-- Two messages of a refused body.
abbrev refusal : Thrown
refusal =
    http 400
      (detailed (
        field "message" (array (cons (text "no email") (cons (text "no name") nil)))
          (field "error" (text "Bad Request") end)))
      "Bad Request"

abbrev plain : Json → String
plain v = ""

error_message-answer_example :
    (error_message plain (some (answer_to none "id" "/api" "now" refusal).content)
      ≡ in_one plain (status_and_message refusal).1)
    × (field_of "statusCode" (answer_to none "id" "/api" "now" refusal).content
        ≡ some (numeral (answer_to none "id" "/api" "now" refusal).status))
    × (field_of "requestId" (answer_to none "id" "/api" "now" refusal).content
        ≡ some (text (answer_to none "id" "/api" "now" refusal).request_id))
error_message-answer_example = error_message-answer plain none "id" "/api" "now" refusal

shows_both : in_one plain (status_and_message refusal).1 ≡ "no email, no name"
shows_both = refl

abbrev verify_ada : String → Option AuthenticatedUser
verify_ada token = if str_eq token "abc" then some ada else none

receives-emit_user_example :
    receives
      (serve (subscribe (some 7) ∷ []) (handle_connection verify_ada (some "abc") new_socket))
      (emit_user 1 "ticket.issued" (of_ticket_ids []))
    ≡ (1 == ada.sub)
receives-emit_user_example =
    receives-emit_user verify_ada "abc" ada (subscribe (some 7) ∷ []) 1 "ticket.issued"
      (of_ticket_ids []) refl

-- The stored text stands for the session of Ada.
abbrev auth_response : AuthResponse
auth_response = record {
  access_token = text "abc";
  user = record {
    id = text "1";
    role = text "CUSTOMER";
    email = text "ada@example.org";
    name = text "Ada";
  };
}

abbrev session : Session
session = session_of auth_response

abbrev browser : Browser
browser = record {
  parse = λ s. if str_eq s "" then none else some (session_object session);
  stringify = λ v. "{…}";
  claims = λ token. some (object (field "exp" (numeral 7) end));
  now = 6000;
  readable = true;
  removable = true;
}

abbrev empty_page : Page
empty_page = record { local = λ k. none; session = none }

abbrev logging_in : LoginPage
logging_in = record {
  mode = registering;
  name = "Ada";
  email = "ada@example.org";
  password = "long enough";
  error = "";
  gone_to = none;
  provider = empty_page;
}

abbrev good_replies : Login.Replies
good_replies = record { registered = got tt; logged_in = got auth_response; keeps_session = true }

abbrev to_event : Option Navigation
to_event = some (record { return_to = some "/events/7"; resume_reservation = true })

submit_login-read_session_example :
    ((after_login browser to_event good_replies logging_in).provider.session
      ≡ some (session_of auth_response))
    × (leaves to_event (after_login browser to_event good_replies logging_in).provider.session
        ≡ (after_login browser to_event good_replies logging_in).gone_to)
    × ((target : Target) × ((after_login browser to_event good_replies logging_in).gone_to
          ≡ some target)
        × IsWithin target.path)
    × ((read_session browser
          (after_login browser to_event good_replies logging_in).provider.local).0
        ≡ (if usable browser (session_of auth_response)
            then some (named (session_of auth_response))
            else none))
submit_login-read_session_example =
    submit_login-read_session browser to_event good_replies logging_in auth_response refl refl refl
      refl refl refl

stays_signed_in : usable browser session ≡ true
unfolding is_expired
stays_signed_in = refl

-- Libraries on texts that are in lower case already.
abbrev plain_libraries : Libraries
plain_libraries = record {
  to_lower_case = λ s. s;
  sql_lower = λ s. s;
  hash = λ s. concat "#" s;
  compare = λ p h. str_eq h (concat "#" p);
  sign = λ c. c.email;
}

abbrev joins : Register
joins = record { email = " bea@example.org "; name = "Bea"; password = "Secret12345" }

registers :
    (register shop plain_libraries 2 joins opening).0
    ≡ ok (Accounts.summary (new_user shop plain_libraries 2 joins))
unfolding register opening list_repository
registers = refl

register-login_example :
    (login shop plain_libraries
      (record { email = " bea@example.org "; password = "Secret12345" })
      (register shop plain_libraries 2 joins opening).1).0
    ≡ ok (record {
      access_token = plain_libraries.sign (claims_of (new_user shop plain_libraries 2 joins));
      expires_in = 3600;
      user = Accounts.summary (new_user shop plain_libraries 2 joins);
    })
register-login_example =
    register-login shop plain_libraries 2 joins opening
      (Accounts.summary (new_user shop plain_libraries 2 joins)) registers (λ i u g. refl) refl refl
      refl

list_tickets_exact_example :
    ((l : ListedTicket)
      → In l (list_tickets shop ada completing.1.db)
      → IsOwn shop ada completing.1.db l)
    × ((t : Ticket) (r : Reservation)
        → shop.tickets.get completing.1.db.tickets t.id ≡ some t
        → shop.reservations.get completing.1.db.reservations t.reservation_id ≡ some r
        → r.user_id ≡ ada.sub
        → (l : ListedTicket) × In l (list_tickets shop ada completing.1.db) × (l.ticket ≡ t))
list_tickets_exact_example = list_tickets_exact shop ada completing.1.db

abbrev concerts : EventQuery
concerts = record {
  q = some "conc";
  genre = some "rock";
  city = none;
  from = none;
  to = none;
  available = true;
  page = 1;
  limit = 12;
}

abbrev ilike : String → String → Bool
ilike column term = true

abbrev joined : List String → String
joined tags = ""

abbrev matching : List Event
matching = found ilike joined shop 1000 opening concerts

only_concert : matching ≡ concert ∷ []
unfolding opening list_repository
only_concert = refl

matching-Distinct : Distinct matching
matching-Distinct = rw only_concert (λ m. absurd m, tt)

matching-StartApart : StartApart matching
matching-StartApart a b m n e = elim (subst (In a) only_concert m) [
  | inl p ↦ elim (subst (In b) only_concert n) [ inl q ↦ p ∙ sym q | inr k ↦ absurd k ]
  | inr k ↦ absurd k
]

-- Every page is sorted anew.
abbrev sorted_pages : ℕ → List Event → List Event
sorted_pages k = sort_by starts_before

abbrev first_page : EventPage
first_page = list_events ilike joined shop (sort_by starts_before) 1000 concerts opening

abbrev all_shown : List Event
all_shown = items_from ilike joined shop 1000 opening concerts sorted_pages 0 first_page.pages

list_events-pages_example :
    Ordered starts_before all_shown
    × Distinct all_shown
    × (length all_shown ≡ first_page.total)
    × ((e : Event)
        → In e all_shown ↔ (
            (shop.events.get opening.events e.id ≡ some e)
            × (listed_at ilike joined shop 1000 concerts opening e ≡ true)))
list_events-pages_example =
    list_events-pages ilike joined shop 1000 opening concerts sorted_pages
      (λ k. sort_by-Arrangement matching matching-Distinct) matching-StartApart
      (sort_by starts_before) (omega arith)

finds_the_concert : first_page.total ≡ 1
unfolding list_events opening list_repository
finds_the_concert = refl
