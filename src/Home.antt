-- ===== src/Home.antt =====
-- The home page, frontend/src/components/Home.tsx, which searches again whenever a filter or the page
-- changes. The step of the calendar that takes a chosen instant to the start of its day is left out.
pub mod Shown
use Prim.Native.Char.{Char, char}
use Prim.Native.String as Text
use ki_ticket.RowLabel.{below_IsScalar}
use ki_ticket.Base.{
  ℕ, zero, suc, ◌+◌, ◌-◌, ◌/◌, ◌%◌, arith, String, Bool, true, false, not, ◌&&◌, Option, none, some,
  List, [], ◌∷◌, ◌++◌, select, ◌==◌, ltb, str_eq, if◌then◌else◌,
}
use ki_ticket.Entities.{Event}
use ki_ticket.Search.{EventPage}
use ki_ticket.Reserving.{Reply, got, refused}

pub record Filters : Type 0 where
  pub query : String
  pub genre : String
  pub city : String
  pub from : Option ℕ
  pub available : Bool

-- `String(n)`, whose loop has at most `n + 1` rounds.
abbrev pub digit : ℕ → Char
digit n = char (48 + n % 10) (below_IsScalar (48 + n % 10) (omega arith))

unfoldable pub decimal_from : ℕ → ℕ → String → String
decimal_from zero n text = text
decimal_from (suc fuel) n text =
    let longer = decimal_from fuel (n / 10) (Text.◌∷◌ (digit n) text) in
    if ltb n 10 then Text.◌∷◌ (digit n) text else longer

unfoldable pub decimal : ℕ → String
decimal n = decimal_from (suc n) n ""

-- `URLSearchParams`, whose keys are set once here.
abbrev pub Params : Type 0
Params = List (String × String)

abbrev pub set_text : String → String → Params
set_text key s = if str_eq s "" then [] else (key, s) ∷ []

-- `iso` is `toISOString` of an instant.
abbrev pub set_instant : (iso : ℕ → String) → String → Option ℕ → Params
set_instant iso key none = []
set_instant iso key (some t) = (key, iso t) ∷ []

abbrev pub set_flag : String → Bool → Params
set_flag key false = []
set_flag key true = (key, "true") ∷ []

unfoldable pub params_of : (iso : ℕ → String) → Filters → ℕ → Params
params_of iso f page =
    set_text "q" f.query
    ++ (set_text "genre" f.genre
        ++ (set_text "city" f.city
            ++ (set_instant iso "from" f.from
                ++ (set_flag "available" f.available
                    ++ ("page", decimal page) ∷ ("limit", "12") ∷ []))))

-- A request in flight, with the run of the effect that has sent it.
pub record Request : Type 0 where
  pub effect : ℕ
  pub params : Params

-- The state of the page: `effect` counts the runs of the effect, of which only the last is active,
-- and `scheduled` tells whether its timer still runs.
pub record Home : Type 0 where
  pub events : List Event
  pub filters : Filters
  pub page : ℕ
  pub pages : ℕ
  pub total : ℕ
  pub loading : Bool
  pub error : String
  pub effect : ℕ
  pub scheduled : Bool
  pub requests : List Request

abbrev pub no_filters : Filters
no_filters = record { query = ""; genre = ""; city = ""; from = none; available = false }

unfoldable pub opened : Home
opened = record {
  events = [];
  filters = no_filters;
  page = 1;
  pages = 1;
  total = 0;
  loading = true;
  error = "";
  effect = 0;
  scheduled = true;
  requests = [];
}

-- The effect runs again: the cleanup of the last run has made it inactive and stopped its timer.
abbrev pub rerun : Home → Home
rerun home = record home { effect = suc home.effect; loading = true; scheduled = true }

-- A change of a filter, with `resetPage`.
unfoldable pub set_filters : Filters → Home → Home
set_filters filters home = rerun (record home { filters = filters; page = 1 })

-- The buttons of the pages.
abbrev pub has_pages : Home → Bool
has_pages home = not home.loading && ltb 1 home.pages

unfoldable pub previous_page : Home → Home
previous_page home =
    if has_pages home && ltb 1 home.page then rerun (record home { page = home.page - 1 }) else home

unfoldable pub next_page : Home → Home
next_page home =
    if has_pages home && ltb home.page home.pages
    then rerun (record home { page = home.page + 1 })
    else home

module _ (iso : ℕ → String) where
  abbrev pub request_of : Home → Request
  request_of home = record { effect = home.effect; params = params_of iso home.filters home.page }

  -- The timer of the effect sends the request.
  unfoldable pub on_timer : Home → Home
  on_timer home =
      if home.scheduled
      then record home {
        scheduled = false;
        error = "";
        requests = home.requests ++ request_of home ∷ [];
      }
      else home

abbrev pub at_least_one : ℕ → ℕ
at_least_one n = if ltb n 1 then 1 else n

abbrev pub show_reply : Reply EventPage → Home → Home
show_reply (got result) home = record home {
  events = result.items;
  pages = at_least_one result.pages;
  total = result.total;
  loading = false;
}
show_reply (refused message) home = record home { error = message; loading = false }

-- The request is settled: only an active run of the effect takes its reply.
unfoldable pub on_answer : Request → Reply EventPage → Home → Home
on_answer request reply home =
    let rest : Home = record home {
      requests = select (λ (r : Request). not (r.effect == request.effect)) home.requests;
    } in
    if request.effect == home.effect then show_reply reply rest else rest
