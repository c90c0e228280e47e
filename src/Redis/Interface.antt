-- ===== src/Redis/Interface.antt =====
-- The commands of the Redis server that the Lua scripts of `lock.service.ts` and the waiting room
-- call, and the documented behaviour that they rely on. Each command runs at an instant, since
-- `PSETEX` lets a key expire.
use ki_ticket.Base.{
  ℕ, suc, ◌+◌, ◌≤◌, ◌<◌, ◌≡◌, refl, Bool, true, false, ◌&&◌, Option, none, some, arith, ◌==◌,
  ==_iff, ltb, if◌then◌else◌,
}

-- The two key templates: `lock:event:…:seat:…` and `waiting:event:…:sequence`.
pub data Key : Type 0 where
  lock : (event_id seat_id : ℕ) → Key
  sequence : (event_id : ℕ) → Key

abbrev pub same_key : Key → Key → Bool
same_key (lock e s) (lock e' s') = e == e' && s == s'
same_key (sequence e) (sequence e') = e == e'
same_key _ _ = false

pub same_key-eq : (j k : Key) → same_key j k ≡ true → j ≡ k
same_key-eq (lock e s) (lock e' s') h = ground (arith, ==_iff e e', ==_iff s s')
same_key-eq (lock e s) (sequence e') h = cc
same_key-eq (sequence e) (lock e' s') h = cc
same_key-eq (sequence e) (sequence e') h = ground (arith, ==_iff e e')

pub same_key_refl : (k : Key) → same_key k k ≡ true
same_key_refl (lock e s) = ground arith
same_key_refl (sequence e) = ground arith

pub same_key_comm : (j k : Key) → same_key j k ≡ same_key k j
same_key_comm (lock e s) (lock e' s') = ground arith
same_key_comm (lock e s) (sequence e') = refl
same_key_comm (sequence e) (lock e' s') = refl
same_key_comm (sequence e) (sequence e') = ground arith

-- `EXISTS` of one key, and the number of keys that `DEL` removes.
abbrev pub present : Option ℕ → ℕ
present none = 0
present (some v) = 1

abbrev pub number : Option ℕ → ℕ
number none = 0
number (some v) = v

pub record Redis : Type 1 where
  pub Store : Type 0
  pub get : Store → ℕ → Key → Option ℕ
  pub exists : Store → ℕ → Key → ℕ
  -- the key, the time to live in milliseconds and the value
  pub psetex : Store → ℕ → Key → ℕ → ℕ → Store
  pub del : Store → ℕ → Key → Store × ℕ
  pub incr : Store → ℕ → Key → Store × ℕ
  -- a key does not appear by itself
  pub absent :
      (s : Store) (now later : ℕ) (k : Key)
      → get s now k ≡ none
      → now ≤ later
      → get s later k ≡ none
  pub exists_lem : (s : Store) (now : ℕ) (k : Key) → exists s now k ≡ present (get s now k)
  pub get-psetex :
      (s : Store) (now : ℕ) (k : Key) (ttl v later : ℕ) (j : Key)
      → 0 < ttl
      → now ≤ later
      → get (psetex s now k ttl v) later j
        ≡ (if same_key j k then (if ltb later (now + ttl) then some v else none) else get s later j)
  pub get-del :
      (s : Store) (now : ℕ) (k : Key) (later : ℕ) (j : Key)
      → now ≤ later
      → get (del s now k).0 later j ≡ (if same_key j k then none else get s later j)
  pub del_count : (s : Store) (now : ℕ) (k : Key) → (del s now k).1 ≡ present (get s now k)
  pub incr_value : (s : Store) (now : ℕ) (k : Key) → (incr s now k).1 ≡ suc (number (get s now k))
  pub get-incr :
      (s : Store) (now : ℕ) (k : Key) (later : ℕ) (j : Key)
      → same_key j k ≡ false
      → get (incr s now k).0 later j ≡ get s later j
  pub get-incr_self :
      (s : Store) (now : ℕ) (k : Key) → get (incr s now k).0 now k ≡ some (incr s now k).1
