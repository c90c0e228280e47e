-- ===== src/Security/Guard.antt =====
-- Whom `AuthGuard` of backend/src/security.ts lets through.
use Prim.Native.String.{slice, len}
use text.Mathlib.Text.{starts_with}
use ki_ticket.Base.{
  String, ◌≡◌, ◌≢◌, refl, sym, ap, ◌∙◌, Bool, true, Option, none, some, List, [], ◌∷◌, arith, In,
  any, inl, inr, Option-cases, Bool-cases, str_eq, eq_iff,
}
use ki_ticket.Outcome.{ok, ok_injective}
use ki_ticket.Entities.{Role, same_role, same_role_eq}
use ki_ticket.World.{AuthenticatedUser}
use ki_ticket.Security.{Claims, user_of, permits, can_activate}

any-In : (role : Role) (roles : List Role) → any (same_role role) roles ≡ true → In role roles
any-In role [] h = cc
any-In role (r ∷ rest) h = elim (Bool-cases (same_role role r)) [
  | inl e ↦ inl (same_role_eq role r e)
  | inr n ↦ inr (any-In role rest (ground arith))
]

-- The handler is open to every role, or to this one.
abbrev pub OpenTo : Option (List Role) → Role → Type 0
OpenTo none role = Unit
OpenTo (some roles) role = In role roles

permits-OpenTo :
    (roles : Option (List Role)) (role : Role) → permits roles role ≡ true → OpenTo roles role
permits-OpenTo none role h = tt
permits-OpenTo (some roles) role h = any-In role roles h

-- The claims name the user.
abbrev pub Names : Claims → AuthenticatedUser → Type 0
Names c user =
    (c.sub ≡ some user.sub)
    × (c.email ≡ some user.email)
    × (c.role ≡ some user.role)
    × (user.email ≢ "")

user_of-Names : (c : Claims) (user : AuthenticatedUser) → user_of c ≡ some user → Names c user
user_of-Names c user h = elim (Option-cases c.sub) [
  | inl n ↦ absurd (ground arith)
  | inr (sub, a) ↦ elim (Option-cases c.email) [
    | inl n ↦ absurd (ground arith)
    | inr (email, b) ↦ elim (Option-cases c.role) [
      | inl n ↦ absurd (ground arith)
      | inr (role, d) ↦ elim (Bool-cases (str_eq email "")) [
        | inl e ↦ absurd (ground arith)
        | inr e ↦ (ground arith, ground arith, ground arith, λ q. ground (arith, eq_iff email ""))
      ]
    ]
  ]
]

-- A request that the guard lets through has a bearer token that the token library verifies, whose
-- claims name the user that the request then has, and the user's role is one that the handler
-- admits.
pub can_activate_sound :
    (verify : String → Option Claims) (header : String) (roles : Option (List Role))
    (user : AuthenticatedUser)
    → can_activate verify (some header) roles ≡ ok (true, user)
    → (starts_with header "Bearer " ≡ true)
      × ((c : Claims) × (verify (slice header 7 (len header)) ≡ some c) × Names c user)
      × OpenTo roles user.role
unfolding can_activate
can_activate_sound verify header roles user h = elim (Bool-cases (starts_with header "Bearer ")) [
  | inr n ↦ absurd (ground arith)
  | inl p ↦ elim (Option-cases (verify (slice header 7 (len header)))) [
    | inl n ↦ absurd (ground arith)
    | inr (c, v) ↦ elim (Option-cases (user_of c)) [
      | inl n ↦ absurd (ground arith)
      | inr (u, k) ↦
          let pair : Bool × AuthenticatedUser = (permits roles u.role, u) in
          let run : can_activate verify (some header) roles ≡ ok pair = rw (p, v, k) refl in
          let both = ok_injective (sym run ∙ h) in
          let same : u ≡ user = ap (λ (x : Bool × AuthenticatedUser). x.1) both in
          rw (← same) (
            p,
            (c, v, user_of-Names c u k),
            permits-OpenTo roles u.role (ap (λ (x : Bool × AuthenticatedUser). x.0) both),
          )
    ]
  ]
]
