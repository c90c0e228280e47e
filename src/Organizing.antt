-- ===== src/Organizing.antt =====
-- The form of an event, frontend/src/components/EventForm.tsx, with its draft that a retry takes up.
-- The Persian messages stand in English.
pub mod Once
pub mod Panel
use Prim.Native.Char.{Char, code}
use Prim.Native.String as Text
use ki_ticket.Base.{
  ℕ, String, Bool, true, false, not, ◌&&◌, ◌||◌, Option, none, some, List, [], ◌∷◌, ◌++◌, map,
  select, find, ◌==◌, str_eq, if◌then◌else◌,
}
use ki_ticket.Json.{trim}
use ki_ticket.Entities.{Venue}
use ki_ticket.Reserving.{Reply, got, refused}

-- `EventSummary`, as far as the form reads it.
pub record EventSummary : Type 0 where
  pub id : ℕ
  pub title : String

-- The bodies of the requests.
pub record EventBody : Type 0 where
  pub venue_id : ℕ
  pub title : String
  pub description : String
  pub genre : String
  pub city : String
  pub starts_at : ℕ
  pub tags : List String

pub data Request : Type 0 where
  create_event : EventBody → Request
  add_pricing : (event_id : ℕ) (price : ℕ) → Request
  publish_event : (event_id : ℕ) → Request

-- The state of the form; `finished` are the events that were handed to `done`.
pub record EventForm : Type 0 where
  pub venue_id : ℕ
  pub title : String
  pub description : String
  pub genre : String
  pub city : String
  pub starts_at : Option ℕ
  pub price : ℕ
  pub tags : String
  pub error : String
  pub loading : Bool
  pub draft : Option EventSummary
  pub pricing_ready : Bool
  pub finished : List EventSummary

-- The replies to the three requests of a submission.
pub record Replies : Type 0 where
  pub created : Reply EventSummary
  pub priced : Reply (Unit {0})
  pub published : Reply (Unit {0})

-- `split(",")`
abbrev pub push_char : Char → List String → List String
push_char c [] = Text.◌∷◌ c "" ∷ []
push_char c (s ∷ rest) = Text.◌∷◌ c s ∷ rest

abbrev pub split_commas : String → List String
split_commas Text.[] = "" ∷ []
split_commas (Text.◌∷◌ c s) =
    let rest = split_commas s in if code c == b',' then "" ∷ rest else push_char c rest

-- `tags.split(",").map((tag) => tag.trim()).filter(Boolean)`
unfoldable pub tags_of : String → List String
tags_of s = select (λ t. not (str_eq t "")) (map trim (split_commas s))

abbrev pub body_of : EventForm → ℕ → EventBody
body_of form starts_at = record {
  venue_id = form.venue_id;
  title = form.title;
  description = form.description;
  genre = form.genre;
  city = form.city;
  starts_at = starts_at;
  tags = tags_of form.tags;
}

abbrev pub with_error : EventForm → String → EventForm
with_error form message = record form { error = message }

abbrev pub with_request : Request → EventForm × List Request → EventForm × List Request
with_request r (form, rest) = (form, r ∷ rest)

-- After the publication the form is empty again.
abbrev pub after_publish : EventForm → EventSummary → Reply (Unit {0}) → EventForm
after_publish form event (refused message) = with_error form message
after_publish form event (got u) = record form {
  finished = form.finished ++ event ∷ [];
  draft = none;
  pricing_ready = false;
  title = "";
  description = "";
  starts_at = none;
  tags = "";
}

abbrev pub publish_step : Replies → EventForm → EventSummary → EventForm × List Request
publish_step replies form event =
    (after_publish form event replies.published, publish_event event.id ∷ [])

abbrev pub after_pricing :
    Replies → EventForm → EventSummary → Reply (Unit {0}) → EventForm × List Request
after_pricing replies form event (refused message) = (with_error form message, [])
after_pricing replies form event (got u) =
    publish_step replies (record form { pricing_ready = true }) event

abbrev pub pricing_step : Replies → EventForm → EventSummary → EventForm × List Request
pricing_step replies form event =
    if form.pricing_ready
    then publish_step replies form event
    else with_request (add_pricing event.id form.price)
        (after_pricing replies form event replies.priced)

abbrev pub after_creation : Replies → EventForm → Reply EventSummary → EventForm × List Request
after_creation replies form (refused message) = (with_error form message, [])
after_creation replies form (got event) =
    pricing_step replies (record form { draft = some event }) event

abbrev pub creation_step : Replies → EventForm → ℕ → Option EventSummary → EventForm × List Request
creation_step replies form starts_at (some event) = pricing_step replies form event
creation_step replies form starts_at none =
    with_request (create_event (body_of form starts_at))
      (after_creation replies form replies.created)

abbrev pub done_loading : EventForm × List Request → EventForm × List Request
done_loading (form, requests) = (record form { loading = false }, requests)

abbrev pub submit_at : Replies → EventForm → Option ℕ → EventForm × List Request
submit_at replies form none = (with_error form "Choose the start from the calendar", [])
submit_at replies form (some starts_at) =
    done_loading
      (creation_step replies (record form { loading = true; error = "" }) starts_at form.draft)

-- `submit`
unfoldable pub submit : Replies → EventForm → EventForm × List Request
submit replies form = submit_at replies form form.starts_at

-- The user edits the fields of the form.
pub record Edit : Type 0 where
  pub venue_id : ℕ
  pub genre : String
  pub city : String
  pub title : String
  pub description : String
  pub starts_at : Option ℕ
  pub price : ℕ
  pub tags : String

abbrev pub edited : Edit → EventForm → EventForm
edited e form = record form {
  venue_id = e.venue_id;
  genre = e.genre;
  city = e.city;
  title = e.title;
  description = e.description;
  starts_at = e.starts_at;
  price = e.price;
  tags = e.tags;
}

-- The choice of a venue takes over its city.
abbrev pub city_of : Option Venue → String
city_of none = ""
city_of (some v) = v.city

unfoldable pub choose_venue : List Venue → ℕ → EventForm → EventForm
choose_venue venues id form = record form {
  venue_id = id;
  city = city_of (find (λ (v : Venue). v.id == id) venues);
}
