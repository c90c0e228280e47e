-- ===== src/HttpErrors/Reading.antt =====
-- What the client of frontend/src/api.ts reads of an error that the filter has answered.
use ki_ticket.Base.{String, ◌≡◌, refl, Option, none, some, Bool-cases, inl, inr, str_eq}
use ki_ticket.Json.{
  Json, Fields, null, boolean, numeral, text, array, object, end, field, property, join,
}
use ki_ticket.Client.{error_message, item_texts}
use ki_ticket.HttpErrors.{
  plain, detailed, Thrown, http, entity_not_found, query_failed, other, status_and_message,
  details_of, provided, of_code, spread, answer_to,
}

-- What stands later counts.
property-spread :
    (name : String) (v : Json) (fields rest : Fields)
    → property name rest ≡ some v
    → property name (spread fields rest) ≡ some v
property-spread name v end rest h = h
property-spread name v (field k w more) rest h = rw (property-spread name v more rest h) refl

-- A message in one text.
abbrev pub in_one : (Json → String) → Json → String
in_one shown (text s) = s
in_one shown (array items) = join ", " (item_texts shown items)
in_one shown v = shown v

abbrev IsMessage : Json → Type 0
IsMessage (text s) = Unit
IsMessage (array items) = Unit
IsMessage _ = ⊥

provided-IsMessage : (o : Option Json) (s : String) → IsMessage (provided o s)
provided-IsMessage none s = tt
provided-IsMessage (some null) s = tt
provided-IsMessage (some (boolean b)) s = tt
provided-IsMessage (some (numeral n)) s = tt
provided-IsMessage (some (text t)) s = tt
provided-IsMessage (some (array items)) s = tt
provided-IsMessage (some (object fields)) s = tt

of_code-IsMessage : (code : Option String) → IsMessage (of_code code).1
of_code-IsMessage none = tt
of_code-IsMessage (some c) = elim (Bool-cases (str_eq c "23505")) [
  | inl e ↦ rw e tt
  | inr e ↦ elim (Bool-cases (str_eq c "23503")) [
    | inl f ↦ rw (e, f) tt
    | inr f ↦ elim (Bool-cases (str_eq c "22P02")) [
      | inl g ↦ rw (e, f, g) tt
      | inr g ↦ rw (e, f, g) tt
    ]
  ]
]

chosen-IsMessage : (t : Thrown) → IsMessage (status_and_message t).1
chosen-IsMessage (http status (plain s) message) = tt
chosen-IsMessage (http status (detailed fields) message) =
    provided-IsMessage (property "message" fields) message
chosen-IsMessage entity_not_found = tt
chosen-IsMessage (query_failed code) = of_code-IsMessage code
chosen-IsMessage other = tt

read_back :
    (shown : Json → String) (m : Json) (fields : Fields)
    → IsMessage m
    → property "message" fields ≡ some m
    → error_message shown (some (object fields)) ≡ in_one shown m
unfolding error_message
read_back shown (text s) fields is h = rw h refl
read_back shown (array items) fields is h = rw h refl
read_back shown null fields is h = absurd is
read_back shown (boolean b) fields is h = absurd is
read_back shown (numeral n) fields is h = absurd is
read_back shown (object f) fields is h = absurd is

-- The status
abbrev pub field_of : String → Json → Option Json
field_of name (object fields) = property name fields
field_of name _ = none

-- An error reaches the customer: of every answer of the filter the client shows the message that
-- the filter chose, whatever details the exception has, and the body names the status and the
-- request of the answer.
pub error_message-answer :
    (shown : Json → String) (header : Option String) (fresh url timestamp : String)
    (thrown : Thrown)
    → let answer = answer_to header fresh url timestamp thrown in
      (error_message shown (some answer.content) ≡ in_one shown (status_and_message thrown).1)
      × (field_of "statusCode" answer.content ≡ some (numeral answer.status))
      × (field_of "requestId" answer.content ≡ some (text answer.request_id))
unfolding answer_to
error_message-answer shown header fresh url timestamp thrown = (
  read_back shown (status_and_message thrown).1 _ (chosen-IsMessage thrown)
      (property-spread "message" _ (details_of thrown) _ refl),
  property-spread "statusCode" _ (details_of thrown) _ refl,
  property-spread "requestId" _ (details_of thrown) _ refl,
)
