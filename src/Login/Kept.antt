-- ===== src/Login/Kept.antt =====
-- What a login leaves: the session, and the page that it goes to.
use text.Mathlib.Text.{starts_with}
use ki_ticket.Base.{
  String, ◌≡◌, refl, arith, true, false, Bool-cases, Option, none, some, inl, inr, if◌then◌else◌,
}
use ki_ticket.Reserving.{Reply, got}
use ki_ticket.Session.{Browser, usable, named, session_object, read_session, sign_in}
use ki_ticket.Session.Kept.{read-sign_in}
use ki_ticket.Login.{
  Navigation, within_site, path_or_home, return_to, Mode, signing_in, registering, LoginPage,
  AuthResponse, session_of, Replies, submit_login, target_of, Target, leaves, submit_as, signed_in,
}

-- A path of this site begins with one slash.
abbrev pub IsWithin : String → Type 0
IsWithin path = (starts_with path "/" ≡ true) × (starts_with path "//" ≡ false)

path_or_home-IsWithin : (path : Option String) → IsWithin (path_or_home path)
path_or_home-IsWithin none = (refl, refl)
path_or_home-IsWithin (some path) = elim (Bool-cases (within_site path)) [
  | inl e ↦ rw e (ground arith, ground arith)
  | inr e ↦ rw e (refl, refl)
]

return_to-IsWithin : (navigation : Option Navigation) → IsWithin (return_to navigation)
unfolding return_to
return_to-IsWithin none = (refl, refl)
return_to-IsWithin (some n) = path_or_home-IsWithin n.return_to

-- The registration, if there is one, is accepted.
abbrev pub IsAdmitted : Mode → Reply (Unit {0}) → Type 0
IsAdmitted signing_in reply = Unit {0}
IsAdmitted registering reply = reply ≡ got tt

module _ (browser : Browser) (navigation : Option Navigation) (replies : Replies) (page : LoginPage)
    (response : AuthResponse) where
  by_mode :
      (mode : Mode)
      → IsAdmitted mode replies.registered
      → replies.logged_in ≡ got response
      → (submit_as browser navigation replies page mode).0
        ≡ signed_in browser navigation replies page (got response)
  by_mode signing_in admitted given = rw given refl
  by_mode registering admitted given = rw (admitted, given) refl

abbrev pub after_login : Browser → Option Navigation → Replies → LoginPage → LoginPage
after_login browser navigation replies page = (submit_login browser navigation replies page).0

module _ (browser : Browser) (navigation : Option Navigation) (replies : Replies) (page : LoginPage)
    (response : AuthResponse) where
  -- Who logs in stays logged in and on this site: after a login, or a registration and a login,
  -- that the server accepts, the provider has the session of the reply, the page goes where a page
  -- that is opened with a session goes, to a path of this site, and a page that is loaded later
  -- finds the session exactly if it is usable. It holds if the storage takes the session and can be
  -- read, and JSON reads back what was stored and refuses the empty text.
  pub submit_login-read_session :
      IsAdmitted page.mode replies.registered
      → replies.logged_in ≡ got response
      → replies.keeps_session ≡ true
      → browser.readable ≡ true
      → browser.parse "" ≡ none
      → browser.parse (browser.stringify (session_object (session_of response)))
        ≡ some (session_object (session_of response))
      → ((after_login browser navigation replies page).provider.session
          ≡ some (session_of response))
        × (leaves navigation (after_login browser navigation replies page).provider.session
            ≡ (after_login browser navigation replies page).gone_to)
        × ((target : Target) × ((after_login browser navigation replies page).gone_to ≡ some target)
            × IsWithin target.path)
        × ((read_session browser (after_login browser navigation replies page).provider.local).0 ≡ (
            if usable browser (session_of response)
            then some (named (session_of response))
            else none))
  unfolding submit_login leaves sign_in
  submit_login-read_session admitted given keeps readable empty stored =
      let done =
        by_mode browser navigation replies (record page { error = "" }) response page.mode admitted
          given in
      rw done (
        rw keeps (
          refl,
          refl,
          (target_of navigation, refl, return_to-IsWithin navigation),
          unfold sign_in in
              read-sign_in browser (session_of response) page.provider readable empty stored,
        ))
