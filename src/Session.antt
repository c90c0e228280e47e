-- ===== src/Session.antt =====
-- The session of the web application, frontend/src/auth.tsx: how it is kept in the local storage,
-- read when the page is loaded, and ended.
pub mod Kept
use ki_ticket.Base.{
  ℕ, ◌*◌, String, Bool, true, false, not, ◌&&◌, ◌==◌, Option, none, some, leb, str_eq,
  if◌then◌else◌,
}
use ki_ticket.Json.{Json, Fields, null, boolean, numeral, text, array, object, end, field, property}
use ki_ticket.Storage.{Storage, try_set, try_remove, filled}

-- The fields come from `JSON.parse`, and nothing checks their types at run time.
pub record Session : Type 0 where
  pub token : Json
  pub id : Json
  pub role : Json
  pub email : Json
  pub name : Json

-- The state of the page: its local storage, and the state of `AuthProvider`.
pub record Page : Type 0 where
  pub local : Storage
  pub session : Option Session

-- `parse` is `JSON.parse`, `none` its error. `claims` is the payload of a token as `atob` and
-- `JSON.parse` decode it, `none` any error of theirs.
pub record Browser : Type 0 where
  pub parse : String → Option Json
  pub stringify : Json → String
  pub claims : Json → Option Json
  pub now : ℕ
  pub readable : Bool
  pub removable : Bool

abbrev pub session_storage_key : String
session_storage_key = "narm-session"

-- `if (value)`
abbrev pub truthy : Json → Bool
truthy null = false
truthy (boolean b) = b
truthy (numeral n) = not (n == 0)
truthy (text s) = not (str_eq s "")
truthy _ = true

-- A field that is missing is undefined, which the code treats as null.
abbrev pub value_of : Option Json → Json
value_of none = null
value_of (some v) = v

abbrev ends_by : ℕ → Option Json → Bool
ends_by now (some (numeral exp)) = leb (exp * 1000) now
ends_by now _ = false

abbrev exp_of : Option Json → Option Json
exp_of (some (object fields)) = property "exp" fields
exp_of _ = none

unfoldable pub is_expired : Browser → Json → Bool
is_expired browser token = ends_by browser.now (exp_of (browser.claims token))

abbrev pub name_or_empty : Json → Json
name_or_empty null = text ""
name_or_empty v = v

abbrev pub parsed_session : Fields → Session
parsed_session fields = record {
  token = value_of (property "token" fields);
  id = value_of (property "id" fields);
  role = value_of (property "role" fields);
  email = value_of (property "email" fields);
  name = value_of (property "name" fields);
}

abbrev pub named : Session → Session
named s = record s { name = name_or_empty s.name }

abbrev pub usable : Browser → Session → Bool
usable browser s =
    truthy s.token
    && truthy s.id
    && truthy s.email
    && truthy s.role
    && not (is_expired browser s.token)

abbrev dropped : Browser → Storage → Option Session × Storage
dropped browser local = (none, try_remove browser.removable session_storage_key local)

abbrev resumed : Browser → Storage → Option Json → Option Session × Storage
resumed browser local (some (object fields)) =
    if usable browser (parsed_session fields)
    then (some (named (parsed_session fields)), local)
    else dropped browser local
resumed browser local _ = dropped browser local

abbrev read_raw : Browser → Storage → Option String → Option Session × Storage
read_raw browser local none = (none, local)
read_raw browser local (some raw) = resumed browser local (browser.parse raw)

-- `readSession`
unfoldable pub read_session : Browser → Storage → Option Session × Storage
read_session browser local =
    if browser.readable
    then read_raw browser local (filled (local session_storage_key))
    else dropped browser local

-- What `JSON.stringify` is given.
abbrev pub session_object : Session → Json
session_object s = object (
    field "token" s.token
      (field "id" s.id (field "role" s.role (field "email" s.email (field "name" s.name end)))))

-- `signIn`, where `works` is whether the storage takes the session.
unfoldable pub sign_in : Browser → (works : Bool) → Session → Page → Page
sign_in browser works next page = record {
  local = try_set works session_storage_key (browser.stringify (session_object next)) page.local;
  session = some next;
}

-- `signOut`, and what the provider does on the event that the session has expired.
unfoldable pub sign_out : (works : Bool) → Page → Page
sign_out works page = record {
  local = try_remove works session_storage_key page.local;
  session = none;
}
