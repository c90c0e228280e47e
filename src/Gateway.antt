-- ===== src/Gateway.antt =====
-- `UpdatesGateway` of backend/src/realtime.gateway.ts: the rooms that a socket is in.
pub mod Rooms
use ki_ticket.Base.{
  ℕ, String, Bool, true, false, not, ◌&&◌, Option, none, some, List, [], ◌∷◌, any, select, ◌==◌,
  if◌then◌else◌,
}
use ki_ticket.World.{AuthenticatedUser, Message, emit_user, emit_event, publish}

pub data Room : Type 0 where
  user_room event_room : (id : ℕ) → Room

abbrev pub same_room : Room → Room → Bool
same_room (user_room a) (user_room b) = a == b
same_room (event_room a) (event_room b) = a == b
same_room _ _ = false

pub record Socket : Type 0 where
  pub connected : Bool
  pub rooms : List Room

abbrev pub enter_room : Room → Socket → Socket
enter_room room s = if any (same_room room) s.rooms then s else record s { rooms = room ∷ s.rooms }

abbrev pub leave_room : Room → Socket → Socket
leave_room room s = record s { rooms = select (λ r. not (same_room room r)) s.rooms }

-- What a client sends. `none` is a value that is no text or does not fit the pattern of UUIDs.
pub data ClientMessage : Type 0 where
  subscribe unsubscribe : Option ℕ → ClientMessage

abbrev pub on_message : ClientMessage → Socket → Socket
on_message (subscribe none) s = s
on_message (subscribe (some id)) s = enter_room (event_room id) s
on_message (unsubscribe none) s = s
on_message (unsubscribe (some id)) s = leave_room (event_room id) s

abbrev pub admit_socket : Option AuthenticatedUser → Socket → Socket
admit_socket none s = record s { connected = false }
admit_socket (some user) s = enter_room (user_room user.sub) s

-- `handleConnection`: `verify` is the verification of the token library, `none` its error. A token
-- that is no text is `none`.
unfoldable pub handle_connection :
    (verify : String → Option AuthenticatedUser) → (token : Option String) → Socket → Socket
handle_connection verify none s = record s { connected = false }
handle_connection verify (some token) s = admit_socket (verify token) s

-- The handlers of the messages are there only for a socket that was admitted.
unfoldable pub serve : List ClientMessage → Socket → Socket
serve [] s = s
serve (m ∷ rest) s = serve rest (on_message m s)

-- The room that `emitUser` and `emitEvent` send to.
abbrev pub room_of : Message → Option Room
room_of (emit_user user_id name payload) = some (user_room user_id)
room_of (emit_event event_id name payload) = some (event_room event_id)
room_of (publish type payload user_id) = none

abbrev pub in_room : Socket → Option Room → Bool
in_room s none = false
in_room s (some room) = s.connected && any (same_room room) s.rooms

-- A socket receives a message.
abbrev pub receives : Socket → Message → Bool
receives s m = in_room s (room_of m)
