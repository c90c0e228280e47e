-- ===== src/Client/Bearer.antt =====
-- The token that the client of frontend/src/api.ts sends, and the guard of backend/src/security.ts.
use Prim.Native.String.{◌++◌ as concat, slice, len}
use text.Mathlib.TextPositions.{slice-append_right, len-append, starts_with-append}
use ki_ticket.Base.{String, ◌≡◌, refl, false, Option, some, List, str_eq}
use ki_ticket.Entities.{Role}
use ki_ticket.Security.{Claims, verified, decide_for, can_activate}
use ki_ticket.Client.{Options, get_header, headers_of}

bearer_slice :
    (token : String) → slice (concat "Bearer " token) 7 (len (concat "Bearer " token)) ≡ token
bearer_slice token = rw (len-append "Bearer " token) (slice-append_right "Bearer " token)

header_sent :
    (o : Options) (token : String)
    → str_eq token "" ≡ false
    → get_header "Authorization" (headers_of o (some token)) ≡ some (concat "Bearer " token)
unfolding headers_of
header_sent o token given = rw given refl

-- The guard judges a request of the client by its token: of the headers that the client sends with
-- a token that is not empty, the guard reads that token and lets through whom the token library
-- verifies with a role that the handler admits.
pub guard-headers :
    (verify : String → Option Claims) (roles : Option (List Role)) (o : Options) (token : String)
    → str_eq token "" ≡ false
    → can_activate verify (get_header "Authorization" (headers_of o (some token))) roles
      ≡ decide_for roles (verified (verify token))
unfolding can_activate
guard-headers verify roles o token given =
    rw (header_sent o token given, starts_with-append "Bearer " token, bearer_slice token) refl
