-- ===== src/Lock.antt =====
-- backend/src/lock.service.ts: the two Lua scripts and `LockService`. A script runs as one atomic
-- step of the server, so it is a function of the store at one instant.
pub mod Scripts
pub mod Atomicity
pub mod Exclusion
use ki_ticket.Base.{
  ℕ, ◌+◌, ◌*◌, Bool, true, false, not, ◌==◌, Option, none, some, List, [], ◌∷◌, map, length, unique,
  sort, if◌then◌else◌,
}
use ki_ticket.Outcome.{
  Exec, Result, ok, err, conflict, redis_unavailable, raise_if, pure, ◌>>=◌, ◌>>◌,
}
use ki_ticket.Redis.{Redis, Key, lock}

-- What a call of the server meets: its instant, and whether the server can be reached.
pub record Call : Type 0 where
  pub now : ℕ
  pub reached : Bool

abbrev pub key : ℕ → ℕ → Key
key event_id seat_id = lock event_id seat_id

-- `redis.call('get', key) == ARGV[1]`
abbrev pub holds : Option ℕ → ℕ → Bool
holds none owner = false
holds (some v) owner = v == owner

-- `LOCK_TTL_SECONDS` in milliseconds
abbrev pub ttl_ms : ℕ → ℕ
ttl_ms ttl_seconds = ttl_seconds * 1000

abbrev pub normalized : List ℕ → List ℕ
normalized seat_ids = sort (unique seat_ids)

abbrev pub keys : ℕ → List ℕ → List Key
keys event_id seat_ids = map (key event_id) (normalized seat_ids)

module _ (R : Redis) where
  open R use {Store, get, exists, psetex, del}

  -- The first loop of `ACQUIRE_SCRIPT`.
  unfoldable pub any_exists : ℕ → List Key → Store → Bool
  any_exists now [] s = false
  any_exists now (k ∷ ks) s = if exists s now k == 1 then true else any_exists now ks s

  -- Its second loop: ARGV[1] is the owner, ARGV[2] the time to live.
  unfoldable pub set_all : ℕ → List Key → ℕ → ℕ → Store → Store
  set_all now [] owner ttl s = s
  set_all now (k ∷ ks) owner ttl s = set_all now ks owner ttl (psetex s now k ttl owner)

  unfoldable pub acquire_script : ℕ → List Key → ℕ → ℕ → Store → ℕ × Store
  acquire_script now ks owner ttl s =
      if any_exists now ks s then (0, s) else (1, set_all now ks owner ttl s)

  -- One round of the loop of `RELEASE_SCRIPT`.
  unfoldable pub release_key : ℕ → Key → ℕ → Store → Store × ℕ
  release_key now k owner s = if holds (get s now k) owner then del s now k else (s, 0)

  unfoldable pub release_all : ℕ → List Key → ℕ → ℕ → Store → ℕ × Store
  release_all now [] owner released s = (released, s)
  release_all now (k ∷ ks) owner released s =
      let (s', n) = release_key now k owner s in release_all now ks owner (released + n) s'

  abbrev run_script : Bool → (Store → ℕ × Store) → Exec Store ℕ
  run_script true script s = let (n, s') = script s in (ok n, s')
  run_script false script s = (err redis_unavailable, s)

  -- `LockService.acquire`
  unfoldable pub acquire : Call → ℕ → ℕ → List ℕ → ℕ → Exec Store (Unit {0})
  unfolding acquire_script
  acquire c ttl_seconds event_id seat_ids owner = do
    raise_if (not (length (normalized seat_ids) == length seat_ids))
        (conflict "Duplicate seats are not allowed")
    result ←
        run_script c.reached
          (acquire_script c.now (keys event_id seat_ids) owner (ttl_ms ttl_seconds))
    raise_if (not (result == 1)) (conflict "At least one selected seat is currently locked")

  -- `LockService.release`
  unfoldable pub release : Call → ℕ → List ℕ → ℕ → Exec Store ℕ
  release c event_id [] owner = pure 0
  release c event_id (x ∷ xs) owner =
      run_script c.reached (release_all c.now (keys event_id (x ∷ xs)) owner 0)
