-- ===== src/Client.antt =====
-- The API client of the web application, frontend/src/api.ts: `api` with its retry, and the
-- reading of error bodies. The Persian messages stand in English.
pub mod Retry
pub mod Bearer
use Prim.Native.String.{◌++◌ as concat}
use ki_ticket.Base.{
  ℕ, zero, suc, ◌+◌, ◌*◌, String, Bool, true, false, not, ◌&&◌, ◌||◌, Option, none, some, List, [],
  ◌∷◌, ◌++◌, has, any, select, ltb, leb, ◌==◌, str_eq, if◌then◌else◌,
}
use ki_ticket.Json.{
  Json, Items, Fields, text, array, object, nil, cons, end, field, property, is_blank, join,
}

-- The method of a request, in upper case.
pub data Method : Type 0 where
  get head post patch : Method

-- `ApiError`, and the error of the caller's own signal, which passes through.
pub data Failure : Type 0 where
  api_error : (status : ℕ) → String → (retryable : Bool) → Failure
  aborted_by_caller : Failure

pub data Outcome : Type 0 where
  returned : Option Json → Outcome
  failed : Failure → Outcome

-- What one `fetch` comes to: a response with the text of its body, or an error, where the timer
-- may have run out and the caller's signal may be aborted.
pub data Answer : Type 0 where
  response : (status : ℕ) → String → Answer
  broken : (timed_out aborted : Bool) → Answer

abbrev pub Headers : Type 0
Headers = List (String × String)

abbrev pub has_header : String → Headers → Bool
has_header name = any (λ h. str_eq h.0 name)

-- `Headers.set`
abbrev pub set_header : String → String → Headers → Headers
set_header name value headers = (name, value) ∷ select (λ h. not (str_eq h.0 name)) headers

abbrev pub get_header : String → Headers → Option String
get_header name [] = none
get_header name (h ∷ rest) = if str_eq h.0 name then some h.1 else get_header name rest

-- What the client does besides returning.
pub data Effect : Type 0 where
  requested : (path : String) → Headers → Effect
  auth_expired : Effect
  waited : (milliseconds : ℕ) → Effect

-- The options of a call that count here. `content` is the body, which no caller gives as a form.
pub record Options : Type 0 where
  pub method : Method
  pub headers : Headers
  pub content : Option String

abbrev pub transient_statuses : List ℕ
transient_statuses = 408 ∷ 502 ∷ 503 ∷ 504 ∷ []

abbrev pub request_failed : String
request_failed = "Request failed"

module _ (shown : Json → String) where
  -- `value.message.map(String)`; `shown` is `String` on the other values.
  abbrev pub item_texts : Items → List String
  item_texts nil = []
  item_texts (cons (text s) rest) = s ∷ item_texts rest
  item_texts (cons v rest) = shown v ∷ item_texts rest

  abbrev detail_message : Option Json → String
  detail_message (some (text s)) = s
  detail_message _ = request_failed

  abbrev field_message : Option Json → Option Json → String
  field_message (some (array items)) detail = join ", " (item_texts items)
  field_message (some (text s)) detail = s
  field_message _ detail = detail_message detail

  -- `errorMessage`. An array is an object with no such fields.
  unfoldable pub error_message : Option Json → String
  error_message none = request_failed
  error_message (some (text s)) = if is_blank s then request_failed else s
  error_message (some (object fields)) =
      field_message (property "message" fields) (property "detail" fields)
  error_message (some _) = request_failed

-- `responseBody`. `parse` is `JSON.parse`, with `none` for its error.
unfoldable pub response_body : (String → Option Json) → ℕ → String → Option Json
response_body parse status content =
    if status == 204
    then none
    else if str_eq content ""
    then none
    else elim (parse content) [ some v ↦ some v | none ↦ some (text content) ]

abbrev pub can_retry : Method → Bool
can_retry Method.get = true
can_retry Method.head = true
can_retry _ = false

abbrev pub attempts_of : Method → ℕ
attempts_of m = if can_retry m then 2 else 1

abbrev typed_headers : Options → Headers
typed_headers o = elim o.content [
  | none ↦ o.headers
  | some content ↦
      if str_eq content ""
      then o.headers
      else if has_header "Content-Type" o.headers
      then o.headers
      else set_header "Content-Type" "application/json" o.headers
]

-- `if (token)`: an empty token counts as none.
abbrev pub given : Option String → Bool
given none = false
given (some s) = not (str_eq s "")

unfoldable pub headers_of : Options → Option String → Headers
headers_of o none = typed_headers o
headers_of o (some token) =
    if str_eq token ""
    then typed_headers o
    else set_header "Authorization" (concat "Bearer " token) (typed_headers o)

-- `response.ok`
abbrev pub is_ok : ℕ → Bool
is_ok status = leb 200 status && ltb status 300

abbrev pub is_transient : ℕ → Bool
is_transient status = has status transient_statuses

abbrev connection_error : Bool → Failure
connection_error timed_out =
    api_error (if timed_out then 408 else 0)
      (if timed_out then "The server did not answer in time" else "The server cannot be reached")
      true

abbrev pub after : List Effect → Outcome × List Effect → Outcome × List Effect
after effects (outcome, more) = (outcome, effects ++ more)

-- The parameters of the calls: the libraries' functions, what each `fetch` comes to, and the
-- arguments of `api` with the prefix of its paths.
pub record Call : Type 0 where
  pub parse : String → Option Json
  pub shown : Json → String
  pub fetch : ℕ → Answer
  pub base : String
  pub path : String
  pub options : Options
  pub token : Option String

module _ (call : Call) where
  abbrev expiry_of : ℕ → List Effect
  expiry_of status = if status == 401 && given call.token then auth_expired ∷ [] else []

  abbrev pub failure_of : ℕ → String → Failure
  failure_of status content =
      api_error status (error_message call.shown (response_body call.parse status content))
        (is_transient status)

  -- One round of the loop, `attempt` of `attempts`; `again` is the next round.
  abbrev pub round : (attempts attempt : ℕ) → Outcome × List Effect → Answer → Outcome × List Effect
  round attempts attempt again (response status content) =
      if is_ok status
      then (returned (response_body call.parse status content), [])
      else after (expiry_of status) (
          if is_transient status && ltb (attempt + 1) attempts
          then after (waited (300 * (attempt + 1)) ∷ []) again
          else (failed (failure_of status content), []))
  round attempts attempt again (broken timed_out aborted) =
      if aborted
      then (failed aborted_by_caller, [])
      else if ltb (attempt + 1) attempts
      then after (waited (300 * (attempt + 1)) ∷ []) again
      else (failed (connection_error timed_out), [])

  abbrev pub send_request : Effect
  send_request = requested (concat call.base call.path) (headers_of call.options call.token)

  -- The loop from round `attempt` on, with `left` rounds left.
  unfoldable pub rounds : (attempts left attempt : ℕ) → Outcome × List Effect
  rounds attempts zero attempt = (failed (api_error 0 request_failed false), [])
  rounds attempts (suc left) attempt =
      let again = rounds attempts left (attempt + 1) in
      after (send_request ∷ []) (round attempts attempt again (call.fetch attempt))

  unfoldable pub api : Outcome × List Effect
  unfolding rounds
  api = rounds (attempts_of call.options.method) (attempts_of call.options.method) 0
