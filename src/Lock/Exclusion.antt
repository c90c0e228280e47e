-- ===== src/Lock/Exclusion.antt =====
-- Mutual exclusion of `LockService.acquire` of backend/src/lock.service.ts: contenders for a seat.
use ki_ticket.Base.{
  ℕ, ◌+◌, ◌≤◌, ◌<◌, ◌≡◌, refl, true, none, some, List, [], ◌∷◌, arith, In, In-has, Distinct, inl,
  inr, All,
}
use ki_ticket.Outcome.{Exception, Result, ok, err, Result-cases}
use ki_ticket.Redis.{Redis}
use ki_ticket.Lock.{Call, key, ttl_ms, acquire}
use ki_ticket.Lock.Atomicity.{acquire_ok, acquire_ok_iff, acquire_atomic, get-acquire}

module _ (R : Redis) (ttl_seconds event_id : ℕ) where
  open R use {Store, get}

  -- While a seat's lock is held, a call that names the seat throws and leaves the store as it is.
  pub acquire_held :
      (c : Call) (seat_ids : List ℕ) (owner seat holder : ℕ) (s : Store)
      → In seat seat_ids
      → get s c.now (key event_id seat) ≡ some holder
      → (x : Exception) × (acquire R c ttl_seconds event_id seat_ids owner s ≡ (err x, s))
  acquire_held c seat_ids owner seat holder s m g =
      elim (Result-cases (acquire R c ttl_seconds event_id seat_ids owner s).0) [
        | inl (a, h) ↦
            let facts = acquire_ok R c ttl_seconds event_id seat_ids owner s h in
            let free = ((acquire_ok_iff R c ttl_seconds event_id seat_ids owner s facts.2).0 h).1 in
            absurd (cc (free seat m, g))
        | inr (x, h) ↦
            (x, λ i. (h i, acquire_atomic R c ttl_seconds event_id seat_ids owner s x h i))
      ]

  -- The contenders call one after another; the number of calls that succeed.
  abbrev pub granted : Result (Unit {0}) → ℕ
  granted (ok a) = 1
  granted (err x) = 0

  unfoldable pub contend : List (Call × ℕ) → List ℕ → Store → ℕ
  contend [] seat_ids s = 0
  contend ((c, owner) ∷ rest) seat_ids s =
      let (r, s') = acquire R c ttl_seconds event_id seat_ids owner s in
      granted r + contend rest seat_ids s'

  -- The instants of the calls lie in an interval.
  abbrev pub Within : ℕ → ℕ → List (Call × ℕ) → Type 0
  Within from to = All (λ call. (from ≤ call.0.now) × (call.0.now < to))

  none_granted :
      (calls : List (Call × ℕ)) (seat_ids : List ℕ) (seat holder from to : ℕ) (s : Store)
      → In seat seat_ids
      → Within from to calls
      → ((later : ℕ) → from ≤ later → later < to → get s later (key event_id seat) ≡ some holder)
      → contend calls seat_ids s ≡ 0
  unfolding contend
  none_granted [] seat_ids seat holder from to s m w held = refl
  none_granted ((c, owner) ∷ rest) seat_ids seat holder from to s m w held =
      let (x, e) = acquire_held c seat_ids owner seat holder s m (held c.now w.0.0 w.0.1) in
      rw e (omega (arith, none_granted rest seat_ids seat holder from to s m w.1 held))

  -- Of contenders for the same seats whose calls fall into one time to live, which is positive,
  -- exactly one succeeds, if the first reaches the server and the seats are distinct, free at its
  -- instant, and at least one.
  pub one_winner :
      (c : Call) (owner : ℕ) (rest : List (Call × ℕ)) (seat_ids : List ℕ) (seat : ℕ) (s : Store)
      → 0 < ttl_seconds
      → c.reached ≡ true
      → In seat seat_ids
      → Distinct seat_ids
      → ((x : ℕ) → In x seat_ids → get s c.now (key event_id x) ≡ none)
      → Within c.now (c.now + ttl_ms ttl_seconds) rest
      → contend ((c, owner) ∷ rest) seat_ids s ≡ 1
  unfolding contend
  one_winner c owner rest seat_ids seat s pos up m d free w = rw won (
      omega (
        arith,
        none_granted rest seat_ids seat owner c.now (c.now + ttl_ms ttl_seconds)
            (acquire R c ttl_seconds event_id seat_ids owner s).1 m w held,
      ))
    where
      won : (acquire R c ttl_seconds event_id seat_ids owner s).0 ≡ ok tt
      won = (acquire_ok_iff R c ttl_seconds event_id seat_ids owner s up).1 (d, free)

      held :
          (later : ℕ)
          → c.now ≤ later
          → later < c.now + ttl_ms ttl_seconds
          → get (acquire R c ttl_seconds event_id seat_ids owner s).1 later (key event_id seat)
            ≡ some owner
      held later p q = ground (
        arith,
        get-acquire R c ttl_seconds event_id seat_ids owner s later (key event_id seat) pos p won,
        In-has seat seat_ids m,
      )
