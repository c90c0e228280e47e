-- ===== src/Examples/Access.antt =====
-- A request to an endpoint of organizers.
use Prim.Native.String.{slice, len}
use text.Mathlib.Text.{starts_with}
use ki_ticket.Base.{
  String, ◌≡◌, refl, true, Option, some, none, List, [], ◌∷◌, str_eq, if◌then◌else◌,
}
use ki_ticket.Outcome.{ok}
use ki_ticket.Entities.{Role}
use ki_ticket.World.{AuthenticatedUser}
use ki_ticket.Security.{Claims, can_activate}
use ki_ticket.Security.Guard.{Names, OpenTo, can_activate_sound}

abbrev signed : Claims
signed = record { sub = some 90; email = some "org@example.org"; role = some Role.organizer }

abbrev pub library : String → Option Claims
library token = if str_eq token "abc" then some signed else none

abbrev organizer : AuthenticatedUser
organizer = record { sub = 90; email = "org@example.org"; role = Role.organizer }

abbrev pub for_organizers : Option (List Role)
for_organizers = some (Role.organizer ∷ Role.admin ∷ [])

passes : can_activate library (some "Bearer abc") for_organizers ≡ ok (true, organizer)
unfolding can_activate
passes = refl

can_activate_sound_example :
    (starts_with "Bearer abc" "Bearer " ≡ true)
    × ((c : Claims) × (library (slice "Bearer abc" 7 (len "Bearer abc")) ≡ some c)
        × Names c organizer)
    × OpenTo for_organizers organizer.role
can_activate_sound_example = can_activate_sound library "Bearer abc" for_organizers organizer passes
