-- ===== src/Examples/Organizers.antt =====
-- An organizer who submits the form of an event again, the home page on the events of the shop, and
-- the notices of a session.
use ki_ticket.Base.{
  ℕ, String, ◌≡◌, ◌≤◌, refl, Bool, true, false, none, some, List, [], ◌∷◌, ◌++◌, inl,
}
use ki_ticket.Database.{list_repository}
use ki_ticket.Reserving.{Reply, got, refused}
use ki_ticket.Organizing.{EventSummary, EventForm, Edit, submit}
use ki_ticket.Organizing
use ki_ticket.Organizing.Once.{ids, drafts, priced_drafts, submissions, submissions_lem}
use ki_ticket.Search.{EventQuery, EventPage, list_events}
use ki_ticket.Home.{
  Filters, Params, params_of, Home, opened, set_filters, on_timer, on_answer, request_of,
}
use ki_ticket.Home.Shown.{Shows, Reach, start, next, filtered, timer, replied, Reach-Shows}
use ki_ticket.Layout.{History}
use ki_ticket.Examples.Shop.{shop, opening}

abbrev new_form : EventForm
new_form = record {
  venue_id = 3;
  title = "";
  description = "";
  genre = "Music";
  city = "Tehran";
  starts_at = none;
  price = 2500000;
  tags = "";
  error = "";
  loading = false;
  draft = none;
  pricing_ready = false;
  finished = [];
}

abbrev entry : Edit
entry = record {
  venue_id = 3;
  genre = "Music";
  city = "Tehran";
  title = "Concert";
  description = "At night";
  starts_at = some 1000000;
  price = 2500000;
  tags = "rock, jazz";
}

abbrev concert_summary : EventSummary
concert_summary = record { id = 7; title = "Concert" }

-- The pricing fails, then it succeeds.
abbrev first_replies : Organizing.Replies
first_replies = record {
  created = got concert_summary;
  priced = refused "No connection";
  published = refused "No connection";
}

abbrev second_replies : Organizing.Replies
second_replies = record {
  created = got (record { id = 8; title = "Concert" });
  priced = got tt;
  published = got tt;
}

abbrev tries : List (Edit × Organizing.Replies)
tries = (entry, first_replies) ∷ (entry, second_replies) ∷ []

submissions_lem_example :
    ((submissions tries new_form).1.events
      ≡ (submissions tries new_form).0.finished ++ drafts (submissions tries new_form).0.draft)
    × ((submissions tries new_form).1.publications ≡ ids (submissions tries new_form).0.finished)
    × ((submissions tries new_form).1.prices
        ≡ ids (submissions tries new_form).0.finished
          ++ priced_drafts
              (submissions tries new_form).0.pricing_ready
              (submissions tries new_form).0.draft)
submissions_lem_example = submissions_lem tries new_form refl refl refl

makes_one_event : (submissions tries new_form).1.events ≡ concert_summary ∷ []
unfolding submit
makes_one_event = refl

abbrev rock : Filters
rock = record { query = ""; genre = "rock"; city = ""; from = none; available = true }

-- The server of the shop.
abbrev ilike : String → String → Bool
ilike column term = true

abbrev joined : List String → String
joined tags = ""

abbrev rock_query : EventQuery
rock_query = record {
  q = none;
  genre = some "rock";
  city = none;
  from = none;
  to = none;
  available = true;
  page = 1;
  limit = 12;
}

abbrev served : EventPage
served = list_events ilike joined shop (λ xs. xs) 1000 rock_query opening

abbrev Serves : Params → Reply EventPage → Type 0
Serves params reply = reply ≡ got served

abbrev iso : ℕ → String
iso t = "1970-01-01T00:00:01.000Z"

-- The customer chooses rock before the first reply comes, which is then dropped.
abbrev asked_first : Home
asked_first = on_timer iso opened

abbrev asked_second : Home
asked_second = on_timer iso (set_filters rock asked_first)

abbrev dropped : Home
dropped = on_answer (request_of iso opened) (got served) asked_second

abbrev settled_home : Home
settled_home = on_answer (request_of iso (set_filters rock asked_first)) (got served) dropped

reached : Reach iso Serves settled_home
unfolding on_timer opened set_filters on_answer
reached =
    next
      (next
        (next (next (next start (timer opened)) (filtered asked_first rock))
          (timer (set_filters rock asked_first)))
        (replied asked_second (request_of iso opened) (got served) (inl refl) refl))
      (replied dropped (request_of iso (set_filters rock asked_first)) (got served) (inl refl) refl)

Reach-Shows_example :
    ((reply : Reply EventPage) × Serves (params_of iso settled_home.filters settled_home.page) reply
      × Shows reply settled_home)
    × (1 ≤ settled_home.page)
Reach-Shows_example =
    Reach-Shows iso Serves reached (unfold on_timer opened set_filters on_answer in refl)

shows_the_concert : settled_home.total ≡ 1
unfolding on_timer opened set_filters on_answer list_events opening list_repository params_of
shows_the_concert = refl

-- Two messages that raise a notice, and one that does not.
abbrev messages : History
messages =
    (1000, "payment.started") ∷ (2000, "payment.succeeded") ∷ (2500, "seat.status.changed") ∷ []
