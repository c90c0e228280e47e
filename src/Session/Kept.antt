-- ===== src/Session/Kept.antt =====
-- What a page that is loaded again finds of the session.
use ki_ticket.Base.{
  ◌≡◌, refl, true, none, some, str_eq, eq_iff, Bool-cases, inl, inr, if◌then◌else◌,
}
use ki_ticket.Storage.{Storage, filled}
use ki_ticket.Session.{
  Session, Page, Browser, usable, named, resumed, session_object, read_session, sign_in, sign_out,
}

module _ (browser : Browser) (next : Session) (page : Page)
    (readable : browser.readable ≡ true) where
  filled_stored :
      browser.parse "" ≡ none
      → browser.parse (browser.stringify (session_object next)) ≡ some (session_object next)
      → filled (some (browser.stringify (session_object next)))
        ≡ some (browser.stringify (session_object next))
  filled_stored empty stored =
      elim (Bool-cases (str_eq (browser.stringify (session_object next)) "")) [
        | inr e ↦ rw e refl
        | inl e ↦ absurd (let same = (eq_iff _ _).0 e in cc)
      ]

  resumed_lem :
      (local : Storage)
      → (resumed browser local (some (session_object next))).0
        ≡ (if usable browser next then some (named next) else none)
  resumed_lem local = elim (Bool-cases (usable browser next)) [
    | inl u ↦ rw u refl
    | inr u ↦ rw u refl
  ]

  -- A session survives a reload: after a sign-in that the storage takes, a page that can read it
  -- finds the session, with an empty name for none, exactly if its token, id, email and role are
  -- given and the token has not expired. It holds if JSON reads back what was stored and refuses
  -- the empty text.
  pub read-sign_in :
      browser.parse "" ≡ none
      → browser.parse (browser.stringify (session_object next)) ≡ some (session_object next)
      → (read_session browser (sign_in browser true next page).local).0
        ≡ (if usable browser next then some (named next) else none)
  unfolding read_session sign_in
  read-sign_in empty stored = simp (readable, filled_stored empty stored, stored) (resumed_lem _)

  pub read-sign_out : (read_session browser (sign_out true page).local).0 ≡ none
  unfolding read_session sign_out
  read-sign_out = rw readable refl
