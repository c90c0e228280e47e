-- ===== src/Gateway/Rooms.antt =====
-- Who receives what is sent to a user.
use ki_ticket.Base.{
  ℕ, String, ◌≡◌, ap, ◌∙◌, refl, arith, true, not, ◌||◌, Option, none, some, List, [], ◌∷◌, any,
  select, inl, inr, Bool-cases, ◌==◌,
}
use ki_ticket.World.{AuthenticatedUser, Payload, emit_user}
use ki_ticket.Gateway.{
  Room, user_room, event_room, same_room, Socket, ClientMessage, subscribe, unsubscribe, on_message,
  handle_connection, serve, receives,
}

-- A socket with no room yet.
abbrev pub new_socket : Socket
new_socket = record { connected = true; rooms = [] }

any-leave :
    (x e : ℕ) (rooms : List Room)
    → any (same_room (user_room x)) (select (λ r. not (same_room (event_room e) r)) rooms)
      ≡ any (same_room (user_room x)) rooms
any-leave x e [] = refl
any-leave x e (user_room y ∷ rest) = ap (λ b. x == y || b) (any-leave x e rest)
any-leave x e (event_room y ∷ rest) = elim (Bool-cases (e == y)) [
  | inl h ↦ rw h (any-leave x e rest)
  | inr h ↦ rw h (any-leave x e rest)
]

-- The messages of a client do not move it in or out of a user's room.
on_message-user :
    (x : ℕ) (m : ClientMessage) (s : Socket)
    → any (same_room (user_room x)) (on_message m s).rooms ≡ any (same_room (user_room x)) s.rooms
on_message-user x (subscribe none) s = refl
on_message-user x (subscribe (some id)) s =
    elim (Bool-cases (any (same_room (event_room id)) s.rooms)) [
      | inl h ↦ rw h refl
      | inr h ↦ rw h refl
    ]
on_message-user x (unsubscribe none) s = refl
on_message-user x (unsubscribe (some id)) s = any-leave x id s.rooms

on_message-connected : (m : ClientMessage) (s : Socket) → (on_message m s).connected ≡ s.connected
on_message-connected (subscribe none) s = refl
on_message-connected (subscribe (some id)) s =
    elim (Bool-cases (any (same_room (event_room id)) s.rooms)) [
      | inl h ↦ rw h refl
      | inr h ↦ rw h refl
    ]
on_message-connected (unsubscribe none) s = refl
on_message-connected (unsubscribe (some id)) s = refl

serve-user :
    (x : ℕ) (ms : List ClientMessage) (s : Socket) (name : String) (p : Payload)
    → receives (serve ms s) (emit_user x name p) ≡ receives s (emit_user x name p)
unfolding serve
serve-user x [] s name p = refl
serve-user x (m ∷ rest) s name p =
    serve-user x rest (on_message m s) name p
    ∙ rw (on_message-user x m s, on_message-connected m s) refl

-- Nobody listens to another user: a new socket whose token is verified receives what is sent to a
-- user exactly if that is the user of the token, whatever it subscribes to.
pub receives-emit_user :
    (verify : String → Option AuthenticatedUser) (token : String) (user : AuthenticatedUser)
    (messages : List ClientMessage) (x : ℕ) (name : String) (payload : Payload)
    → verify token ≡ some user
    → receives
        (serve messages (handle_connection verify (some token) new_socket))
        (emit_user x name payload)
      ≡ (x == user.sub)
unfolding handle_connection
receives-emit_user verify token user messages x name payload h =
    serve-user x messages _ name payload ∙ rw h (ground arith)
