-- ===== src/Lock/Atomicity.antt =====
-- `LockService.acquire` and `release` of backend/src/lock.service.ts: all of the seats or none, and
-- a release that touches only its owner's locks.
use ki_ticket.Base.{
  ℕ, ◌+◌, ◌≤◌, ◌<◌, ◌≡◌, ◌↔◌, refl, sym, ap, ◌∙◌, true, false, ◌&&◌, none, some, List, [], ◌∷◌, map,
  arith, length, length-sort, length-unique_Distinct, unique, In, In-has, has-In, Distinct,
  unique-Distinct, sort-Distinct, has-not_In, ◌==◌, ==_iff, ltb, if◌then◌else◌, Bool-cases, inl,
  inr,
}
use ki_ticket.Outcome.{Exception, ok, err}
use ki_ticket.Redis.{Redis, Key, lock, sequence}
use ki_ticket.Lock.{
  Call, key, keys, holds, normalized, ttl_ms, any_exists, set_all, release_all, acquire, release,
}
use ki_ticket.Lock.Scripts.{
  locks_seat, among-keys, among-map, get-set_all, any_exists-false, any_exists-true,
  get-release_all, count_held, Fresh, release_all_count,
}

Distinct-test : (xs : List ℕ) → Distinct xs → (length (normalized xs) == length xs) ≡ true
Distinct-test xs d =
    (==_iff (length (normalized xs)) (length xs)).1
      (length-sort (unique xs) ∙ (length-unique_Distinct xs).1 d)

Distinct-of_test : (xs : List ℕ) → (length (normalized xs) == length xs) ≡ true → Distinct xs
Distinct-of_test xs h =
    (length-unique_Distinct xs).0
      (sym (length-sort (unique xs)) ∙ (==_iff (length (normalized xs)) (length xs)).0 h)

Fresh-map : (event_id : ℕ) (xs : List ℕ) → Distinct xs → Fresh (map (key event_id) xs)
Fresh-map event_id [] d = tt
Fresh-map event_id (x ∷ xs) d = (
  ground (arith, among-map (lock event_id x) event_id xs, has-not_In x xs d.0),
  Fresh-map event_id xs d.1,
)

Fresh-keys : (event_id : ℕ) (xs : List ℕ) → Fresh (keys event_id xs)
Fresh-keys event_id xs =
    Fresh-map event_id (normalized xs) (sort-Distinct (unique xs) (unique-Distinct xs))

module _ (R : Redis) (c : Call) (ttl_seconds event_id : ℕ) (seat_ids : List ℕ) (owner : ℕ) where
  open R use {Store, get}

  -- Every seat of the call is free at its instant.
  abbrev pub AllFree : Store → Type 0
  AllFree s = (seat : ℕ) → In seat seat_ids → get s c.now (key event_id seat) ≡ none

  pub acquire_ok :
      (s : Store)
      → (acquire R c ttl_seconds event_id seat_ids owner s).0 ≡ ok tt
      → ((length (normalized seat_ids) == length seat_ids) ≡ true)
        × (any_exists R c.now (keys event_id seat_ids) s ≡ false)
        × (c.reached ≡ true)
        × ((acquire R c ttl_seconds event_id seat_ids owner s).1
            ≡ set_all R c.now (keys event_id seat_ids) owner (ttl_ms ttl_seconds) s)
  unfolding acquire
  acquire_ok s h = ground arith

  free_of_script : (s : Store) → any_exists R c.now (keys event_id seat_ids) s ≡ false → AllFree s
  free_of_script s h seat m =
      any_exists-false R c.now (keys event_id seat_ids) s (key event_id seat) h
        (among-keys (key event_id seat) event_id seat_ids ∙ ground (arith, In-has seat seat_ids m))

  taken_of_script : (s : Store) → any_exists R c.now (keys event_id seat_ids) s ≡ true → ¬ AllFree s
  taken_of_script s h free =
      let (k, v, m, g) = any_exists-true R c.now (keys event_id seat_ids) s h in
      taken k v (sym (among-keys k event_id seat_ids) ∙ m) g
    where
      taken : (k : Key) (v : ℕ) → locks_seat k event_id seat_ids ≡ true → get s c.now k ≡ some v → ⊥
      taken (lock e x) v m g =
          let same : e ≡ event_id = ground arith in
          cc (g, free x (has-In x seat_ids (ground arith)))
      taken (sequence e) v m g = cc

  -- With the server reached, `acquire` succeeds exactly when no seat is named twice and every seat
  -- is free.
  pub acquire_ok_iff :
      (s : Store)
      → c.reached ≡ true
      → ((acquire R c ttl_seconds event_id seat_ids owner s).0 ≡ ok tt)
        ↔ (Distinct seat_ids × AllFree s)
  acquire_ok_iff s up = (
    λ h.
        let facts = acquire_ok s h in (Distinct-of_test seat_ids facts.0, free_of_script s facts.1),
    λ h. granted h.0 h.1,
  )
    where
      granted :
          Distinct seat_ids
          → AllFree s
          → (acquire R c ttl_seconds event_id seat_ids owner s).0 ≡ ok tt
      granted d free = elim (Bool-cases (any_exists R c.now (keys event_id seat_ids) s)) [
        | inl e ↦ absurd (taken_of_script s e free)
        | inr e ↦ unfold acquire in ground (arith, Distinct-test seat_ids d)
      ]

  -- A call that throws has taken no lock.
  pub acquire_atomic :
      (s : Store) (x : Exception)
      → (acquire R c ttl_seconds event_id seat_ids owner s).0 ≡ err x
      → (acquire R c ttl_seconds event_id seat_ids owner s).1 ≡ s
  unfolding acquire
  acquire_atomic s x h = ground arith

  -- A call that succeeds has put every seat's lock under its owner for the time to live, and has
  -- changed no other key.
  pub get-acquire :
      (s : Store) (later : ℕ) (j : Key)
      → 0 < ttl_seconds
      → c.now ≤ later
      → (acquire R c ttl_seconds event_id seat_ids owner s).0 ≡ ok tt
      → get (acquire R c ttl_seconds event_id seat_ids owner s).1 later j ≡ (
          if locks_seat j event_id seat_ids
          then (if ltb later (c.now + ttl_ms ttl_seconds) then some owner else none)
          else get s later j)
  get-acquire s later j p q h =
      rw ((acquire_ok s h).3, ← among-keys j event_id seat_ids)
        (get-set_all R c.now (keys event_id seat_ids) owner (ttl_ms ttl_seconds) s later j
          (omega arith) q)

module _ (R : Redis) (c : Call) (event_id : ℕ) where
  open R use {Store, get}

  release_run :
      (seat_ids : List ℕ) (owner : ℕ) (s : Store)
      → c.reached ≡ true
      → ((release R c event_id seat_ids owner s).0
          ≡ ok (release_all R c.now (keys event_id seat_ids) owner 0 s).0)
        × ((release R c event_id seat_ids owner s).1
            ≡ (release_all R c.now (keys event_id seat_ids) owner 0 s).1)
  unfolding release release_all
  release_run [] owner s up = (refl, refl)
  release_run (x ∷ xs) owner s up = rw up (refl, refl)

  -- A release that reaches the server removes the locks of its seats that its owner holds, and
  -- leaves every other key, at any instant that is not before it.
  pub get-release :
      (seat_ids : List ℕ) (owner : ℕ) (s : Store) (later : ℕ) (j : Key)
      → c.reached ≡ true
      → c.now ≤ later
      → get (release R c event_id seat_ids owner s).1 later j ≡ (
          if locks_seat j event_id seat_ids && holds (get s c.now j) owner
          then none
          else get s later j)
  get-release seat_ids owner s later j up q =
      rw ((release_run seat_ids owner s up).1, ← among-keys j event_id seat_ids)
        (get-release_all R c.now (keys event_id seat_ids) owner 0 s later j q)

  -- Its result is the number of locks that it removed.
  pub release_counts :
      (seat_ids : List ℕ) (owner : ℕ) (s : Store)
      → c.reached ≡ true
      → (release R c event_id seat_ids owner s).0
        ≡ ok (count_held R c.now (keys event_id seat_ids) owner s)
  release_counts seat_ids owner s up =
      rw
        (
          (release_run seat_ids owner s up).0,
          release_all_count R c.now (keys event_id seat_ids) owner 0 s
              (Fresh-keys event_id seat_ids),
        )
        (ap ok (omega arith))

  -- A release that cannot reach the server changes nothing.
  pub release_unreached :
      (seat_ids : List ℕ) (owner : ℕ) (s : Store)
      → c.reached ≡ false
      → (release R c event_id seat_ids owner s).1 ≡ s
  unfolding release
  release_unreached [] owner s down = refl
  release_unreached (x ∷ xs) owner s down = rw down refl

-- Taking locks and giving them back by the same owner leaves every key as it was: it holds of a
-- positive time to live, if the acquisition succeeds and the release reaches the server, at any
-- instant that is not before the release.
pub acquire-release :
    (R : Redis) (c d : Call) (ttl_seconds event_id : ℕ) (seat_ids : List ℕ) (owner : ℕ)
    (s : R.Store) (later : ℕ) (j : Key)
    → 0 < ttl_seconds
    → c.now ≤ d.now
    → d.now ≤ later
    → d.reached ≡ true
    → (acquire R c ttl_seconds event_id seat_ids owner s).0 ≡ ok tt
    → R.get
        (release R d event_id seat_ids owner
          (acquire R c ttl_seconds event_id seat_ids owner s).1).1
        later
        j
      ≡ R.get s later j
acquire-release R c d ttl_seconds event_id seat_ids owner s later j p q r up h =
    rw
      (get-release R d event_id seat_ids owner (acquire R c ttl_seconds event_id seat_ids owner s).1
        later j up r)
      (ground (
        arith,
        get-acquire R c ttl_seconds event_id seat_ids owner s later j p,
        get-acquire R c ttl_seconds event_id seat_ids owner s d.now j p,
        was_free j,
      ))
  where
    was_free : (j : Key) → locks_seat j event_id seat_ids ≡ true → R.get s later j ≡ none
    was_free (lock e x) m =
        R.absent s c.now later (lock e x)
          (rw (let same : e ≡ event_id = ground arith in same) (
            ((acquire_ok_iff R c ttl_seconds event_id seat_ids owner s
                  (acquire_ok R c ttl_seconds event_id seat_ids owner s h).2).0
                h).1
              x (has-In x seat_ids (ground arith))))
          (omega arith)
    was_free (sequence e) m = cc
