-- ===== src/Redis/Memory.antt =====
-- A server in memory: an implementation of the interface, on which the examples run. A store gives
-- each key its value and, if it has one, the instant at which the key expires.
use ki_ticket.Base.{
  ℕ, suc, ◌+◌, ◌≤◌, ◌≡◌, refl, false, Option, none, some, arith, ltb, if◌then◌else◌,
}
use ki_ticket.Redis.Interface.{Key, same_key, same_key_refl, present, number, Redis}

abbrev pub Held : Type 0
Held = Option (ℕ × Option ℕ)

abbrev pub Entries : Type 0
Entries = Key → Held

abbrev pub live : Held → ℕ → Option ℕ
live none now = none
live (some (v, none)) now = some v
live (some (v, some t)) now = if ltb now t then some v else none

abbrev pub put : Entries → Key → Held → Entries
put s k h j = if same_key j k then h else s j

-- the counter keeps a time to live that the key has
abbrev pub lifetime : Held → ℕ → Option ℕ
lifetime none now = none
lifetime (some (v, none)) now = none
lifetime (some (v, some t)) now = if ltb now t then some t else none

pub absent_lem : (h : Held) (now later : ℕ) → live h now ≡ none → now ≤ later → live h later ≡ none
absent_lem none now later p q = refl
absent_lem (some (v, none)) now later p q = p
absent_lem (some (v, some t)) now later p q = ground arith

pub live-put :
    (s : Entries) (k : Key) (h : Held) (j : Key) (later : ℕ)
    → live (put s k h j) later ≡ (if same_key j k then live h later else live (s j) later)
live-put s k h j later = ground arith

abbrev pub counted : Held → ℕ → Held
counted h now = some (suc (number (live h now)), lifetime h now)

pub live-counted :
    (h : Held) (now : ℕ) → live (counted h now) now ≡ some (suc (number (live h now)))
live-counted none now = refl
live-counted (some (v, none)) now = refl
live-counted (some (v, some t)) now = ground arith

pub live-put_ne :
    (s : Entries) (k : Key) (h : Held) (j : Key) (later : ℕ)
    → same_key j k ≡ false
    → live (put s k h j) later ≡ live (s j) later
live-put_ne s k h j later d = rw d refl

pub live-put_self :
    (s : Entries) (k : Key) (now : ℕ)
    → live (put s k (counted (s k) now) k) now ≡ some (suc (number (live (s k) now)))
live-put_self s k now = rw (same_key_refl k) (live-counted (s k) now)

unfoldable pub memory : Redis
memory = record {
  Store = Entries;
  get = λ s now k. live (s k) now;
  exists = λ s now k. present (live (s k) now);
  psetex = λ s now k ttl v. put s k (some (v, some (now + ttl)));
  del = λ s now k. (put s k none, present (live (s k) now));
  incr = λ s now k. (put s k (counted (s k) now), suc (number (live (s k) now)));
  absent = λ s now later k. absent_lem (s k) now later;
  exists_lem = λ s now k. refl;
  get-psetex = λ s now k ttl v later j _ _. live-put s k (some (v, some (now + ttl))) j later;
  get-del = λ s now k later j _. live-put s k none j later;
  del_count = λ s now k. refl;
  incr_value = λ s now k. refl;
  get-incr = λ s now k later j d. live-put_ne s k (counted (s k) now) j later d;
  get-incr_self = λ s now k. live-put_self s k now;
}
