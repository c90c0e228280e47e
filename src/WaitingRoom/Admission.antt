-- ===== src/WaitingRoom/Admission.antt =====
-- `assertAdmission` of backend/src/waiting-room.controller.ts admits the holders of a valid token.
use ki_ticket.Base.{
  ℕ, String, ◌<◌, ◌≡◌, ◌≢◌, ◌↔◌, refl, sym, ap, ◌∙◌, Bool, true, Option, none, some, arith, inl,
  inr, Option-cases, some_injective, ==_iff, eq_iff,
}
use ki_ticket.Outcome.{ok}
use ki_ticket.Entities.{WaitingRoomEntry, WaitingRoomState, same_text, is_admitted}
use ki_ticket.World.{Repositories, Db}
use ki_ticket.WaitingRoom.{assert_admission, check_token, check_entry, grants, unexpired}

-- An entry of the table that admits its user to its event with this token.
abbrev pub Admits : (D : Repositories) → Db D → ℕ → ℕ → ℕ → String → WaitingRoomEntry → Type 0
Admits D db now event_id user_id token e =
    (D.entries.get db.entries e.id ≡ some e)
    × (e.event_id ≡ event_id)
    × (e.user_id ≡ user_id)
    × (e.state ≡ WaitingRoomState.admitted)
    × (e.admission_token ≡ some token)
    × ((t : ℕ) × (e.token_expires_at ≡ some t) × (now < t))

unexpired_at :
    (o : Option ℕ) (now : ℕ) → unexpired o now ≡ true → (t : ℕ) × (o ≡ some t) × (now < t)
unexpired_at none now h = cc
unexpired_at (some t) now h = (t, refl, ground arith)

same_text_eq : (o : Option String) (s : String) → same_text o (some s) ≡ true → o ≡ some s
same_text_eq none s h = cc
same_text_eq (some t) s h = ap some ((eq_iff t s).0 h)

same_text_self : (s : String) → same_text (some s) (some s) ≡ true
same_text_self s = (eq_iff s s).1 refl

admitted_of_test : (st : WaitingRoomState) → is_admitted st ≡ true → st ≡ WaitingRoomState.admitted
admitted_of_test st h = ground arith

granted :
    (event_id user_id : ℕ) (token : String) (e : WaitingRoomEntry)
    → grants event_id user_id token e ≡ true
    → (e.event_id ≡ event_id)
      × (e.user_id ≡ user_id)
      × (e.state ≡ WaitingRoomState.admitted)
      × (e.admission_token ≡ some token)
granted event_id user_id token e h = (
  (==_iff e.event_id event_id).0 (ground arith),
  (==_iff e.user_id user_id).0 (ground arith),
  admitted_of_test e.state (ground arith),
  same_text_eq e.admission_token token (ground arith),
)

module _ (D : Repositories) (now event_id user_id : ℕ) where
  pub admission_reads :
      (required : Bool) (token : Option String) (db : Db D)
      → (assert_admission D required now event_id user_id token db).1 ≡ db
  unfolding assert_admission check_token check_entry
  admission_reads required none db = ground arith
  admission_reads required (some token) db =
      elim (Option-cases (D.entries.find_one_by db.entries (grants event_id user_id token))) [
        | inl e ↦ ground arith
        | inr (x, e) ↦ ground arith
      ]

  -- A check that passes has found an entry that admits.
  pub admission_found :
      (token : String) (db : Db D)
      → (assert_admission D true now event_id user_id (some token) db).0 ≡ ok tt
      → (token ≢ "") × ((e : WaitingRoomEntry) × Admits D db now event_id user_id token e)
  unfolding assert_admission check_token check_entry
  admission_found token db h =
      elim (Option-cases (D.entries.find_one_by db.entries (grants event_id user_id token))) [
        | inl e ↦ absurd (ground arith)
        | inr (x, e) ↦
            let f = D.entries.found db.entries (grants event_id user_id token) x e in
            let (a, b, st, tk) = granted event_id user_id token x f.1 in
            let live = unexpired_at x.token_expires_at now (ground arith) in
            (λ q. ground (arith, eq_iff token ""), (x, (f.0, a, b, st, tk, live)))
      ]

  grants_of :
      (token : String) (e : WaitingRoomEntry) (db : Db D)
      → Admits D db now event_id user_id token e
      → grants event_id user_id token e ≡ true
  grants_of token e db (g, a, b, st, tk, x) =
      rw (st, tk, same_text_self token)
        (ground (arith, ==_iff e.event_id event_id, ==_iff e.user_id user_id))

  the_entry :
      (token : String) (e x : WaitingRoomEntry) (db : Db D)
      → Admits D db now event_id user_id token e
      → D.entries.find_one_by db.entries (grants event_id user_id token) ≡ some x
      → x ≡ e
  the_entry token e x db (g, a, b, st, tk, live) h =
      let f = D.entries.found db.entries (grants event_id user_id token) x h in
      let t = same_text_eq x.admission_token token (ground arith) in
      let one : x.id ≡ e.id =
        D.entries.unique db.entries x.id e.id x e f.0 g (rw (t, tk) (same_text_self token)) in
      some_injective (sym f.0 ∙ (ap (D.entries.get db.entries) one ∙ g))

  admitted_passes :
      (token : String) (e : WaitingRoomEntry) (db : Db D)
      → token ≢ ""
      → Admits D db now event_id user_id token e
      → (assert_admission D true now event_id user_id (some token) db).0 ≡ ok tt
  unfolding assert_admission check_token check_entry
  admitted_passes token e db named k =
      elim (Option-cases (D.entries.find_one_by db.entries (grants event_id user_id token))) [
        | inl none_found ↦ absurd (
            cc (
              grants_of token e db k,
              D.entries.missing db.entries (grants event_id user_id token) e.id e none_found k.0,
            ))
        | inr (x, h) ↦
            let same = the_entry token e x db k h in
            let (g, a, b, st, tk, (t, te, late)) = k in
            let expires : x.token_expires_at ≡ some t =
              ap (λ (y : WaitingRoomEntry). y.token_expires_at) same ∙ te in
            ground (arith, eq_iff token "")
      ]

  -- With the waiting room on, a token passes exactly if it is not empty and an admitted entry of
  -- this user for this event holds it and has not expired.
  pub admission_iff :
      (token : String) (db : Db D)
      → ((assert_admission D true now event_id user_id (some token) db).0 ≡ ok tt)
        ↔ ((token ≢ "") × ((e : WaitingRoomEntry) × Admits D db now event_id user_id token e))
  admission_iff token db =
      (admission_found token db, λ (named, (e, k)). admitted_passes token e db named k)
