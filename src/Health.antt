-- ===== src/Health.antt =====
-- `MetricsService` and `HealthController` of backend/src/health.controller.ts, `RedisService` of
-- backend/src/redis.service.ts, and `validateEnvironment` of backend/src/main.ts.
use Prim.Native.Char.{code}
use Prim.Native.String as Text
use ki_ticket.Base.{
  ℕ, ◌+◌, ◌-◌, String, Bool, true, false, not, ◌&&◌, ◌||◌, Option, none, some, ltb, str_eq,
  if◌then◌else◌,
}

pub record Metrics : Type 0 where
  pub requests : ℕ
  pub errors : ℕ
  pub duration_us : ℕ

-- `observe`; the durations are whole microseconds, as `render` shows them.
unfoldable pub observe : (duration_us : ℕ) → (failed : Bool) → Metrics → Metrics
observe duration_us failed m = record {
  requests = m.requests + 1;
  errors = if failed then m.errors + 1 else m.errors;
  duration_us = m.duration_us + duration_us;
}

-- `MetricsInterceptor`: the clock at the start and at the end of a request, and whether its
-- observable ended with an error.
unfoldable pub intercept : (started ended : ℕ) → (failed : Bool) → Metrics → Metrics
unfolding observe
intercept started ended failed = observe (ended - started) failed

pub record Checks : Type 0 where
  pub database : Bool
  pub redis : Bool
  pub rabbitmq : Bool

pub data Readiness : Type 0 where
  healthy degraded : Checks → Readiness
  unavailable : Checks → Readiness

-- `ready`, from the outcomes of its three checks; `unavailable` is the exception.
unfoldable pub ready : (database redis rabbitmq : Bool) → Readiness
ready database redis rabbitmq =
    let checks : Checks = record { database = database; redis = redis; rabbitmq = rabbitmq } in
    if not database || not redis
    then unavailable checks
    else if rabbitmq
    then healthy checks
    else degraded checks

-- The status of the client of Redis.
pub data RedisStatus : Type 0 where
  wait active end : RedisStatus

abbrev pub is_wait : RedisStatus → Bool
is_wait RedisStatus.wait = true
is_wait _ = false

-- `ready` of `RedisService`: whether the client is given out, and its status; `connects` is whether
-- a connection can be made.
unfoldable pub redis_ready : (connects : Bool) → RedisStatus → Bool × RedisStatus
redis_ready connects status =
    if is_wait status
    then if connects then (true, RedisStatus.active) else (false, status)
    else (true, status)

-- `ping`; `reply` is what the server answers, `none` an error.
abbrev pub is_pong : Option String → Bool
is_pong none = false
is_pong (some reply) = str_eq reply "PONG"

unfoldable pub ping : (connects : Bool) → (reply : Option String) → RedisStatus → Bool
unfolding redis_ready
ping connects reply status = (redis_ready connects status).0 && is_pong reply

-- `onApplicationShutdown`: whether the client is told to quit.
unfoldable pub quits : RedisStatus → Bool
quits RedisStatus.active = true
quits _ = false

-- The variables that `validateEnvironment` reads.
pub record Environment : Type 0 where
  pub node_env : Option String
  pub jwt_secret : Option String
  pub db_synchronize : Option String

abbrev pub is_text : Option String → String → Bool
is_text none t = false
is_text (some s) t = str_eq s t

-- `length` of a text of JavaScript, in units of UTF-16.
abbrev pub utf16_length : String → ℕ
utf16_length Text.[] = 0
utf16_length (Text.◌∷◌ c s) = (if ltb (code c) 0x10000 then 1 else 2) + utf16_length s

abbrev pub too_short : Option String → Bool
too_short none = true
too_short (some s) = str_eq s "" || ltb (utf16_length s) 32

-- The message of the error that stops the start of the service.
unfoldable pub validate_environment : Environment → Option String
validate_environment env =
    if is_text env.node_env "production"
    then if too_short env.jwt_secret
      then some "JWT_SECRET must contain at least 32 characters in production"
      else if is_text env.db_synchronize "true"
      then some "DB_SYNCHRONIZE must be disabled in production"
      else none
    else none
