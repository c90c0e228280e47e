-- ===== src/Security.antt =====
-- `AuthGuard` of backend/src/security.ts.
pub mod Guard
use Prim.Native.String.{slice, len}
use text.Mathlib.Text.{starts_with}
use ki_ticket.Base.{
  ℕ, String, Bool, true, false, not, ◌&&◌, ◌||◌, Option, none, some, List, [], ◌∷◌, any, str_eq,
  if◌then◌else◌,
}
use ki_ticket.Outcome.{Result, ok, err, unauthorized}
use ki_ticket.Entities.{Role, same_role}
use ki_ticket.World.{AuthenticatedUser}

-- What the payload of a token holds under the names of the claims. A role that is none of the values of
-- `Role` is `none`.
pub record Claims : Type 0 where
  pub sub : Option ℕ
  pub email : Option String
  pub role : Option Role

abbrev pub user_of : Claims → Option AuthenticatedUser
user_of c = elim c.sub [
  | none ↦ none
  | some sub ↦ elim c.email [
    | none ↦ none
    | some email ↦ elim c.role [
      | none ↦ none
      | some role ↦
          if str_eq email "" then none else some (record { sub = sub; email = email; role = role })
    ]
  ]
]

-- `!roles || roles.includes(request.user.role)`
abbrev pub permits : Option (List Role) → Role → Bool
permits none role = true
permits (some roles) role = any (same_role role) roles

abbrev pub verified : Option Claims → Option AuthenticatedUser
verified none = none
verified (some c) = user_of c

abbrev pub decide_for :
    Option (List Role) → Option AuthenticatedUser → Result (Bool × AuthenticatedUser)
decide_for roles none = err (unauthorized "Token is invalid or expired")
decide_for roles (some user) = ok (permits roles user.role, user)

-- `canActivate`, and the user that it puts into the request. `verify` is the verification of the token
-- library; `none` is its error.
unfoldable pub can_activate :
    (String → Option Claims)
    → Option String
    → Option (List Role)
    → Result (Bool × AuthenticatedUser)
can_activate verify none roles = err (unauthorized "Bearer token is required")
can_activate verify (some header) roles =
    if starts_with header "Bearer "
    then decide_for roles (verified (verify (slice header 7 (len header))))
    else err (unauthorized "Bearer token is required")
