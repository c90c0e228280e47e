-- ===== src/HttpErrors.antt =====
-- `ApiExceptionFilter` of backend/src/http-exception.filter.ts: the answer to a request whose
-- handler throws. The Persian messages stand in English.
pub mod Reading
use ki_ticket.Base.{ℕ, String, Bool, true, false, Option, none, some, leb, str_eq, if◌then◌else◌}
use ki_ticket.Json.{Json, Items, Fields, numeral, text, array, object, end, field, property}

-- What `getResponse` of an `HttpException` gives.
pub data HttpBody : Type 0 where
  plain : String → HttpBody
  detailed : Fields → HttpBody

-- An exception, with the code of the driver's error if a query failed.
pub data Thrown : Type 0 where
  http : (status : ℕ) → HttpBody → (message : String) → Thrown
  entity_not_found : Thrown
  query_failed : (code : Option String) → Thrown
  other : Thrown

abbrev pub internal_error : String
internal_error = "Internal server error"

abbrev pub record_not_found : String
record_not_found = "The record was not found"

abbrev pub already_stored : String
already_stored = "These data are already stored"

abbrev pub bad_dependency : String
bad_dependency = "The dependent data are not valid"

abbrev pub bad_value : String
bad_value = "An identifier or a value is not valid"

-- The status and the message of a failed query, by the code.
abbrev pub of_code : Option String → ℕ × Json
of_code none = (500, text internal_error)
of_code (some code) =
    if str_eq code "23505"
    then (409, text already_stored)
    else if str_eq code "23503"
    then (409, text bad_dependency)
    else if str_eq code "22P02"
    then (400, text bad_value)
    else (500, text internal_error)

-- The message that the details provide, or that of the exception.
abbrev pub provided : Option Json → String → Json
provided (some (text s)) message = text s
provided (some (array items)) message = array items
provided _ message = text message

-- The status and the message, and the details, of the answer.
abbrev pub status_and_message : Thrown → ℕ × Json
status_and_message (http status (plain s) message) = (status, text s)
status_and_message (http status (detailed fields) message) =
    (status, provided (property "message" fields) message)
status_and_message entity_not_found = (404, text record_not_found)
status_and_message (query_failed code) = of_code code
status_and_message other = (500, text internal_error)

abbrev pub details_of : Thrown → Fields
details_of (http status (detailed fields) message) = fields
details_of _ = end

-- `{ ...details, … }`
abbrev pub spread : Fields → Fields → Fields
spread end rest = rest
spread (field name v more) rest = field name v (spread more rest)

pub record HttpAnswer : Type 0 where
  pub status : ℕ
  pub request_id : String
  pub content : Json
  pub logged : Bool

-- `header` is `x-request-id` of the request, `fresh` a random UUID.
abbrev pub or_fresh : Option String → String → String
or_fresh none fresh = fresh
or_fresh (some id) fresh = id

unfoldable pub answer_to :
    (header : Option String) (fresh url timestamp : String) → Thrown → HttpAnswer
answer_to header fresh url timestamp thrown =
    let (status, message) = status_and_message thrown in
    let request_id = or_fresh header fresh in
    record {
      status = status;
      request_id = request_id;
      content = object (
          spread (details_of thrown) (
            field "statusCode" (numeral status) (
              field "message" message (
                field "path" (text url) (
                  field "timestamp" (text timestamp) (field "requestId" (text request_id) end))))));
      logged = leb 500 status;
    }
