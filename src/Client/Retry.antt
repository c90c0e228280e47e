-- ===== src/Client/Retry.antt =====
-- What a call of `api` comes to: how often it sends, and what it returns.
use ki_ticket.Base.{
  ℕ, suc, ◌+◌, ◌≡◌, refl, Bool, true, false, not, ◌&&◌, List, [], ◌∷◌, ◌==◌, arith, Bool-cases, inl,
  inr, ap, if◌then◌else◌,
}
use ki_ticket.Client.{
  Outcome, Answer, response, broken, returned, failed, aborted_by_caller, Effect, requested,
  auth_expired, waited, Call, can_retry, is_ok, is_transient, failure_of, response_body,
  connection_error, given, rounds, round, api,
}

-- What the last answer says by itself.
abbrev pub meaning : Call → Answer → Outcome
meaning call (response status content) =
    if is_ok status
    then returned (response_body call.parse status content)
    else failed (failure_of call status content)
meaning call (broken timed_out aborted) =
    failed (if aborted then aborted_by_caller else connection_error timed_out)

-- An answer after which the same request may do better: a transient status, or a connection that
-- broke without the caller's doing.
abbrev pub may_pass : Answer → Bool
may_pass (response status content) = not (is_ok status) && is_transient status
may_pass (broken timed_out aborted) = not aborted

abbrev pub count_requests : List Effect → ℕ
count_requests [] = 0
count_requests (requested path headers ∷ rest) = suc (count_requests rest)
count_requests (auth_expired ∷ rest) = count_requests rest
count_requests (waited t ∷ rest) = count_requests rest

-- The page is told that the session has expired.
abbrev pub tells_expiry : List Effect → Bool
tells_expiry [] = false
tells_expiry (auth_expired ∷ rest) = true
tells_expiry (requested path headers ∷ rest) = tells_expiry rest
tells_expiry (waited t ∷ rest) = tells_expiry rest

-- The server refuses the token.
abbrev pub refuses : Call → Answer → Bool
refuses call (response status content) = status == 401 && given call.token
refuses call (broken timed_out aborted) = false

-- The call sends a second time.
abbrev pub resends : Call → Bool
resends call = can_retry call.options.method && may_pass (call.fetch 0)

last_round :
    (call : Call) (attempts attempt : ℕ) (again : Outcome × List Effect) (a : Answer)
    → attempts ≡ attempt + 1
    → ((round call attempts attempt again a).0 ≡ meaning call a)
      × (count_requests (round call attempts attempt again a).1 ≡ 0)
      × (tells_expiry (round call attempts attempt again a).1 ≡ refuses call a)
last_round call attempts attempt again (response status content) e =
    (ground arith, ground arith, ground arith)
last_round call attempts attempt again (broken timed_out aborted) e =
    (ground arith, ground arith, ground arith)

first_round :
    (call : Call) (again : Outcome × List Effect) (a : Answer)
    → ((round call 2 0 again a).0 ≡ (if may_pass a then again.0 else meaning call a))
      × (count_requests (round call 2 0 again a).1
          ≡ (if may_pass a then count_requests again.1 else 0))
      × (tells_expiry (round call 2 0 again a).1
          ≡ (if may_pass a then tells_expiry again.1 else refuses call a))
first_round call again (response status content) = (ground arith, ground arith, ground arith)
first_round call again (broken timed_out aborted) = (ground arith, ground arith, ground arith)

rounds_one :
    (call : Call) (attempts attempt : ℕ)
    → attempts ≡ attempt + 1
    → ((rounds call attempts 1 attempt).0 ≡ meaning call (call.fetch attempt))
      × (count_requests (rounds call attempts 1 attempt).1 ≡ 1)
      × (tells_expiry (rounds call attempts 1 attempt).1 ≡ refuses call (call.fetch attempt))
unfolding rounds
rounds_one call attempts attempt e =
    let last =
      last_round call attempts attempt (rounds call attempts 0 (attempt + 1)) (call.fetch attempt)
        e in
    (last.0, ap suc last.1, last.2)

rounds_two :
    (call : Call)
    → ((rounds call 2 2 0).0 ≡ meaning call (call.fetch (if may_pass (call.fetch 0) then 1 else 0)))
      × (count_requests (rounds call 2 2 0).1 ≡ (if may_pass (call.fetch 0) then 2 else 1))
      × (tells_expiry (rounds call 2 2 0).1
          ≡ refuses call (call.fetch (if may_pass (call.fetch 0) then 1 else 0)))
unfolding rounds
rounds_two call =
    let next = rounds_one call 2 1 refl in
    let first = first_round call (rounds call 2 1 1) (call.fetch 0) in
    elim (Bool-cases (may_pass (call.fetch 0))) [
      | inl e ↦ (ground arith, ground arith, ground arith)
      | inr e ↦ (ground arith, ground arith, ground arith)
    ]

-- A call of the client returns or throws what its last answer says: it sends a second request
-- exactly if the method is GET or HEAD and the first answer is transient or a connection that broke
-- without the caller's doing, and never a third; and it tells the page that the session has expired
-- exactly if the last answer refuses its token.
pub api_lem :
    (call : Call)
    → ((api call).0 ≡ meaning call (call.fetch (if resends call then 1 else 0)))
      × (count_requests (api call).1 ≡ (if resends call then 2 else 1))
      × (tells_expiry (api call).1 ≡ refuses call (call.fetch (if resends call then 1 else 0)))
unfolding api
api_lem call = elim (Bool-cases (can_retry call.options.method)) [
  | inl e ↦ rw e (rounds_two call)
  | inr e ↦ rw e (rounds_one call 1 0 refl)
]
