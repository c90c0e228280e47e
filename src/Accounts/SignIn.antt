-- ===== src/Accounts/SignIn.antt =====
-- Who registers can log in.
use ki_ticket.Base.{
  ℕ, ◌≡◌, ◌∙◌, sym, ap, subst, refl, arith, Bool, true, none, some, inl, inr, Option-cases,
  Bool-cases, str_eq, ◌==◌, ==_iff, if◌then◌else◌, some_injective,
}
use text.Mathlib.TextPositions.{eq_refl}
use ki_ticket.Outcome.{ok, ok_injective}
use ki_ticket.Entities.{User}
use ki_ticket.World.{Repositories, Db}
use ki_ticket.Json.{trim}
use ki_ticket.Accounts.{
  Register, Libraries, UserSummary, summary, claims_of, normal_email, new_user, register, login,
}

module _ (D : Repositories) (lib : Libraries) where
  -- How a registration that returns has run.
  pub record Registered (id : ℕ) (body : Register) (db : Db D) (out : UserSummary) (db' : Db D)
      : Type 0 where
    pub table : D.users.Table
    pub unknown :
        D.users.find_one_by db.users (λ u. str_eq u.email (normal_email D lib body.email)) ≡ none
    pub inserted : D.users.insert db.users (new_user D lib id body) ≡ some table
    pub result : out ≡ summary (new_user D lib id body)
    pub after : db' ≡ record db { users = table }

  pub register_ok :
      (id : ℕ) (body : Register) (db : Db D) (out : UserSummary)
      → (register D lib id body db).0 ≡ ok out
      → Registered id body db out (register D lib id body db).1
  unfolding register
  register_ok id body db out h =
      elim (Option-cases
        (D.users.find_one_by db.users (λ u. str_eq u.email (normal_email D lib body.email)))) [
          | inr (u, f) ↦ absurd (ground arith)
          | inl n ↦ elim (Option-cases (D.users.insert db.users (new_user D lib id body))) [
            | inl m ↦ absurd (ground arith)
            | inr (t, k) ↦ record {
              table = t;
              unknown = n;
              inserted = k;
              result = ok_injective (sym h ∙ ground arith);
              after = ground arith;
            }
          ]
        ]

  -- The emails are stored in lower case, as `register` stores them.
  abbrev pub EmailsAreLower : Db D → Type 0
  EmailsAreLower db =
      (i : ℕ) (u : User) → D.users.get db.users i ≡ some u → lib.sql_lower u.email ≡ u.email

  module _ (id : ℕ) (body : Register) (db : Db D) (out : UserSummary)
      (done : (register D lib id body db).0 ≡ ok out) where
    reg : Registered id body db out (register D lib id body db).1
    reg = register_ok id body db out done

    -- Every stored user was there before or is the new one.
    stored :
        (i : ℕ)
        → D.users.get reg.table i
          ≡ (if i == id then some (new_user D lib id body) else D.users.get db.users i)
    stored i = D.users.get-insert db.users (new_user D lib id body) reg.table i reg.inserted

    module _ (lower : EmailsAreLower db)
        (lowered : lib.sql_lower (normal_email D lib body.email)
          ≡ normal_email D lib body.email) where
      -- kept
      pub register-EmailsAreLower : EmailsAreLower (register D lib id body db).1
      register-EmailsAreLower i u g = elim (Bool-cases (i == id)) [
        | inl e ↦
            let same : u ≡ new_user D lib id body =
              some_injective (
                sym g
                ∙ ap (λ (d : Db D). D.users.get d.users i) reg.after
                ∙ stored i
                ∙ rw e refl) in
            rw same lowered
        | inr e ↦
            lower i u
              (sym (ap (λ (d : Db D). D.users.get d.users i) reg.after ∙ stored i ∙ rw e refl) ∙ g)
      ]

      only_one :
          (u : User)
          → D.users.get reg.table u.id ≡ some u
          → str_eq (lib.sql_lower u.email) (normal_email D lib body.email) ≡ true
          → u ≡ new_user D lib id body
      only_one u g e = elim (Bool-cases (u.id == id)) [
        | inl q ↦ some_injective (sym g ∙ stored u.id ∙ rw q refl)
        | inr q ↦
            let old : D.users.get db.users u.id ≡ some u = sym (stored u.id ∙ rw q refl) ∙ g in
            let other =
              D.users.missing db.users (λ x. str_eq x.email (normal_email D lib body.email)) u.id u
                reg.unknown old in
            let same : str_eq u.email (normal_email D lib body.email) ≡ true =
              rw (lower u.id u old) at e in
            absurd (cc (other, same))
      ]

      module _ (typed : lib.sql_lower (trim body.email) ≡ normal_email D lib body.email) where
        abbrev asks : User → Bool
        asks u = str_eq (lib.sql_lower u.email) (lib.sql_lower (trim body.email))

        asks_new : asks (new_user D lib id body) ≡ true
        asks_new = rw (lowered, typed) (eq_refl (normal_email D lib body.email))

        found_again : D.users.find_one_by reg.table asks ≡ some (new_user D lib id body)
        found_again = elim (Option-cases (D.users.find_one_by reg.table asks)) [
          | inl n ↦ absurd (
              cc (
                D.users.missing reg.table asks id (new_user D lib id body) n (stored id ∙ self),
                asks_new,
              ))
          | inr (u, f) ↦
              let (g, p) = D.users.found reg.table asks u f in
              f
              ∙ ap some
                  (only_one u g (subst (λ x. str_eq (lib.sql_lower u.email) x ≡ true) typed p))
        ]
          where
            self :
                (if id == id then some (new_user D lib id body) else D.users.get db.users id)
                ≡ some (new_user D lib id body)
            self = rw ((==_iff id id).1 refl) refl

        -- Who registers can log in: after a registration that returned, the same email and password
        -- give a session of the new customer. It holds if the stored emails are in lower case, if
        -- the database takes the new email and the typed one to the stored form, and if bcrypt
        -- accepts the password for its own hash.
        pub register-login :
            lib.compare body.password (lib.hash body.password) ≡ true
            → (login D lib
                (record { email = body.email; password = body.password })
                (register D lib id body db).1).0
              ≡ ok (record {
                access_token = lib.sign (claims_of (new_user D lib id body));
                expires_in = 3600;
                user = out;
              })
        unfolding login
        register-login matches = rw (reg.after, found_again, matches, reg.result) refl
