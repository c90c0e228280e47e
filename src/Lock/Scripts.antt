-- ===== src/Lock/Scripts.antt =====
-- What the loops of the two Lua scripts of backend/src/lock.service.ts do to each key.
use ki_ticket.Base.{
  ℕ, ◌+◌, ◌≤◌, ◌<◌, ◌≡◌, refl, Bool, true, false, ◌&&◌, none, some, List, [], ◌∷◌, map, arith, any,
  has, has-sort, has-unique, ◌==◌, ltb, if◌then◌else◌, Bool-cases, Option-cases, inl, inr,
}
use ki_ticket.Redis.{
  Redis, Key, lock, sequence, same_key, same_key-eq, same_key_refl, same_key_comm,
}
use ki_ticket.Lock.{key, keys, holds, normalized, any_exists, set_all, release_key, release_all}

-- Whether a key is one of a list's.
abbrev pub among : Key → List Key → Bool
among j = any (same_key j)

-- Whether a key is the lock of one of an event's seats.
abbrev pub locks_seat : Key → ℕ → List ℕ → Bool
locks_seat (lock e s) event_id seat_ids = e == event_id && has s seat_ids
locks_seat (sequence e) event_id seat_ids = false

-- No key twice.
abbrev pub Fresh : List Key → Type 0
Fresh [] = Unit
Fresh (k ∷ ks) = (among k ks ≡ false) × Fresh ks

pub among-map :
    (j : Key) (event_id : ℕ) (xs : List ℕ)
    → among j (map (key event_id) xs) ≡ locks_seat j event_id xs
among-map (lock e s) event_id [] = ground arith
among-map (lock e s) event_id (x ∷ xs) = ground (arith, among-map (lock e s) event_id xs)
among-map (sequence e) event_id [] = refl
among-map (sequence e) event_id (x ∷ xs) = among-map (sequence e) event_id xs

pub among-keys :
    (j : Key) (event_id : ℕ) (xs : List ℕ) → among j (keys event_id xs) ≡ locks_seat j event_id xs
among-keys (lock e s) event_id xs =
    rw (among-map (lock e s) event_id (normalized xs), has-sort s, has-unique s) refl
among-keys (sequence e) event_id xs = among-map (sequence e) event_id (normalized xs)

module _ (R : Redis) where
  open R use {Store, get, psetex, del}

  -- What a key holds after the second loop of `ACQUIRE_SCRIPT`.
  pub get-set_all :
      (now : ℕ) (ks : List Key) (owner ttl : ℕ) (s : Store) (later : ℕ) (j : Key)
      → 0 < ttl
      → now ≤ later
      → get (set_all R now ks owner ttl s) later j ≡ (
          if among j ks
          then (if ltb later (now + ttl) then some owner else none)
          else get s later j)
  unfolding set_all
  get-set_all now [] owner ttl s later j p q = refl
  get-set_all now (k ∷ ks) owner ttl s later j p q = ground (
    arith,
    get-set_all now ks owner ttl (psetex s now k ttl owner) later j,
    R.get-psetex s now k ttl owner later j,
  )

  pub any_exists-false :
      (now : ℕ) (ks : List Key) (s : Store) (j : Key)
      → any_exists R now ks s ≡ false
      → among j ks ≡ true
      → get s now j ≡ none
  unfolding any_exists
  any_exists-false now [] s j h m = cc
  any_exists-false now (k ∷ ks) s j h m = elim (Bool-cases (same_key j k)) [
    | inl e ↦ rw (same_key-eq j k e) (ground (arith, R.exists_lem s now k))
    | inr e ↦ ground (arith, any_exists-false now ks s j)
  ]

  pub any_exists-true :
      (now : ℕ) (ks : List Key) (s : Store)
      → any_exists R now ks s ≡ true
      → (k : Key) × (v : ℕ) × (among k ks ≡ true) × (get s now k ≡ some v)
  unfolding any_exists
  any_exists-true now [] s h = cc
  any_exists-true now (k ∷ ks) s h = elim (Option-cases (get s now k)) [
    | inl e ↦
        let (j, v, m, g) = any_exists-true now ks s (ground (arith, R.exists_lem s now k)) in
        (j, v, ground arith, g)
    | inr (v, e) ↦ (k, v, ground (arith, same_key_refl k), e)
  ]

  get-release_key :
      (now : ℕ) (k : Key) (owner : ℕ) (s : Store) (later : ℕ) (j : Key)
      → now ≤ later
      → get (release_key R now k owner s).0 later j
        ≡ (if same_key j k && holds (get s now j) owner then none else get s later j)
  unfolding release_key
  get-release_key now k owner s later j q = elim (Bool-cases (same_key j k)) [
    | inl e ↦
        rw (same_key-eq j k e, same_key_refl k)
          (ground (arith, R.get-del s now k later k, same_key_refl k))
    | inr e ↦ ground (arith, R.get-del s now k later j)
  ]

  -- What a key holds after `RELEASE_SCRIPT`: the owner's keys are gone, all others as they were.
  pub get-release_all :
      (now : ℕ) (ks : List Key) (owner n : ℕ) (s : Store) (later : ℕ) (j : Key)
      → now ≤ later
      → get (release_all R now ks owner n s).1 later j
        ≡ (if among j ks && holds (get s now j) owner then none else get s later j)
  unfolding release_all
  get-release_all now [] owner n s later j q = refl
  get-release_all now (k ∷ ks) owner n s later j q = ground (
    arith,
    get-release_all now ks owner (n + (release_key R now k owner s).1)
        (release_key R now k owner s).0 later j,
    get-release_key now k owner s later j,
    get-release_key now k owner s now j,
  )

  abbrev pub count_held : ℕ → List Key → ℕ → Store → ℕ
  count_held now [] owner s = 0
  count_held now (k ∷ ks) owner s =
      (if holds (get s now k) owner then 1 else 0) + count_held now ks owner s

  count_held-release_key :
      (now : ℕ) (k : Key) (ks : List Key) (owner : ℕ) (s : Store)
      → among k ks ≡ false
      → count_held now ks owner (release_key R now k owner s).0 ≡ count_held now ks owner s
  count_held-release_key now k [] owner s h = refl
  count_held-release_key now k (j ∷ ks) owner s h = ground (
    arith,
    count_held-release_key now k ks owner s,
    get-release_key now k owner s now j,
    same_key_comm j k,
  )

  released_count :
      (now : ℕ) (k : Key) (owner : ℕ) (s : Store)
      → (release_key R now k owner s).1 ≡ (if holds (get s now k) owner then 1 else 0)
  unfolding release_key
  released_count now k owner s = ground (arith, R.del_count s now k)

  -- Its result counts the keys that the owner held.
  pub release_all_count :
      (now : ℕ) (ks : List Key) (owner n : ℕ) (s : Store)
      → Fresh ks
      → (release_all R now ks owner n s).0 ≡ n + count_held now ks owner s
  unfolding release_all
  release_all_count now [] owner n s f = omega arith
  release_all_count now (k ∷ ks) owner n s f = omega (
    arith,
    release_all_count now ks owner (n + (release_key R now k owner s).1)
        (release_key R now k owner s).0 f.1,
    count_held-release_key now k ks owner s f.0,
    released_count now k owner s,
  )
