-- ===== src/Login.antt =====
-- The page of the login and the registration, frontend/src/components/Login.tsx. The flag that a
-- request runs is left out.
pub mod Kept
use text.Mathlib.Text.{starts_with}
use ki_ticket.Base.{
  String, Bool, true, false, not, ◌&&◌, Option, none, some, List, [], ◌∷◌, if◌then◌else◌,
}
use ki_ticket.Json.{Json}
use ki_ticket.Reserving.{Reply, got, refused}
use ki_ticket.Session.{Session, Browser, sign_in}
use ki_ticket.Session

-- `location.state`, as other pages set it.
pub record Navigation : Type 0 where
  pub return_to : Option String
  pub resume_reservation : Bool

-- A path of this site: `//` begins another host.
abbrev pub within_site : String → Bool
within_site path = starts_with path "/" && not (starts_with path "//")

abbrev pub path_or_home : Option String → String
path_or_home none = "/"
path_or_home (some path) = if within_site path then path else "/"

abbrev asked_path : Option Navigation → Option String
asked_path none = none
asked_path (some n) = n.return_to

-- `returnTo`
unfoldable pub return_to : Option Navigation → String
return_to navigation = path_or_home (asked_path navigation)

-- `resumeState`
abbrev pub resumes : Option Navigation → Bool
resumes none = false
resumes (some n) = n.resume_reservation

-- Where the page goes, and whether the reservation is resumed there.
pub record Target : Type 0 where
  pub path : String
  pub resume_reservation : Bool

abbrev pub target_of : Option Navigation → Target
target_of navigation = record {
  path = return_to navigation;
  resume_reservation = resumes navigation;
}

-- `mode`
pub data Mode : Type 0 where
  signing_in registering : Mode

pub record LoginPage : Type 0 where
  pub mode : Mode
  pub name : String
  pub email : String
  pub password : String
  pub error : String
  pub gone_to : Option Target
  pub provider : Session.Page

-- A page that is opened with a session leaves at once.
unfoldable pub leaves : Option Navigation → Option Session → Option Target
leaves navigation none = none
leaves navigation (some session) = some (target_of navigation)

-- `AuthResponse`, whose fields nothing checks at run time.
pub record AuthUser : Type 0 where
  pub id : Json
  pub role : Json
  pub email : Json
  pub name : Json

pub record AuthResponse : Type 0 where
  pub access_token : Json
  pub user : AuthUser

abbrev pub session_of : AuthResponse → Session
session_of r = record {
  token = r.access_token;
  id = r.user.id;
  role = r.user.role;
  email = r.user.email;
  name = r.user.name;
}

pub data Request : Type 0 where
  post_register : (name : String) (email : String) (password : String) → Request
  post_login : (email : String) (password : String) → Request

-- The replies to the two requests, and whether the storage takes the session.
pub record Replies : Type 0 where
  pub registered : Reply (Unit {0})
  pub logged_in : Reply AuthResponse
  pub keeps_session : Bool

abbrev pub signed_in :
    Browser → Option Navigation → Replies → LoginPage → Reply AuthResponse → LoginPage
signed_in browser navigation replies page (refused message) = record page { error = message }
signed_in browser navigation replies page (got response) = record page {
  provider = sign_in browser replies.keeps_session (session_of response) page.provider;
  gone_to = some (target_of navigation);
}

abbrev pub log_in : Browser → Option Navigation → Replies → LoginPage → LoginPage × List Request
log_in browser navigation replies page = (
  signed_in browser navigation replies page replies.logged_in,
  post_login page.email page.password ∷ [],
)

abbrev pub after_register :
    Browser → Option Navigation → Replies → LoginPage → Reply (Unit {0}) → LoginPage × List Request
after_register browser navigation replies page (refused message) =
    (record page { error = message }, [])
after_register browser navigation replies page (got u) = log_in browser navigation replies page

abbrev pub preceded : Request → LoginPage × List Request → LoginPage × List Request
preceded r (page, rest) = (page, r ∷ rest)

abbrev pub submit_as :
    Browser → Option Navigation → Replies → LoginPage → Mode → LoginPage × List Request
submit_as browser navigation replies page signing_in = log_in browser navigation replies page
submit_as browser navigation replies page registering =
    preceded (post_register page.name page.email page.password)
      (after_register browser navigation replies page replies.registered)

-- `submit`
unfoldable pub submit_login :
    Browser → Option Navigation → Replies → LoginPage → LoginPage × List Request
submit_login browser navigation replies page =
    submit_as browser navigation replies (record page { error = "" }) page.mode

-- The button that changes between the login and the registration.
abbrev pub other_mode : Mode → Mode
other_mode signing_in = registering
other_mode registering = signing_in

unfoldable pub switch_mode : LoginPage → LoginPage
switch_mode page = record page { mode = other_mode page.mode; error = "" }
