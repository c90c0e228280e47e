-- ===== src/Database/Interface.antt =====
-- The repositories of TypeORM over PostgreSQL, as an interface: what the controllers call, and the
-- documented behaviour that they rely on. `get` observes the row that a table holds under an id.
use ki_ticket.Base.{
  ℕ, ◌≡◌, ◌≢◌, ◌⊎◌, Bool, true, false, Option, none, some, List, In, Distinct, map, ◌==◌,
  if◌then◌else◌,
}

-- What an entity class declares: its primary key, and which two rows its `@Unique` lines forbid.
pub record Entity (Row : Type 0) : Type 0 where
  pub key : Row → ℕ
  pub clash : Row → Row → Bool

pub record Repository {Row : Type 0} (e : Entity Row) : Type 1 where
  pub Table : Type 0
  pub get : Table → ℕ → Option Row
  pub find_one_by : Table → (Row → Bool) → Option Row
  pub find_by : Table → (Row → Bool) → List Row
  -- An entity with no id yet: the database generates the id, which the row of the call holds.
  -- `none` is the driver's "duplicate key" error.
  pub insert : Table → Row → Option Table
  -- An entity with an id: an update, or an insertion if no row has the id.
  pub save : Table → Row → Option Table
  pub remove : Table → Row → Table
  pub key-get : (t : Table) (i : ℕ) (r : Row) → get t i ≡ some r → e.key r ≡ i
  pub unique :
      (t : Table) (i j : ℕ) (r s : Row)
      → get t i ≡ some r
      → get t j ≡ some s
      → e.clash r s ≡ true
      → i ≡ j
  pub found :
      (t : Table) (p : Row → Bool) (r : Row)
      → find_one_by t p ≡ some r
      → (get t (e.key r) ≡ some r) × (p r ≡ true)
  pub missing :
      (t : Table) (p : Row → Bool) (i : ℕ) (r : Row)
      → find_one_by t p ≡ none
      → get t i ≡ some r
      → p r ≡ false
  pub listed :
      (t : Table) (p : Row → Bool) (r : Row)
      → In r (find_by t p)
      → (get t (e.key r) ≡ some r) × (p r ≡ true)
  pub complete :
      (t : Table) (p : Row → Bool) (i : ℕ) (r : Row)
      → get t i ≡ some r
      → p r ≡ true
      → In r (find_by t p)
  pub distinct : (t : Table) (p : Row → Bool) → Distinct (map e.key (find_by t p))
  pub get-insert :
      (t : Table) (r : Row) (t' : Table) (i : ℕ)
      → insert t r ≡ some t'
      → get t' i ≡ (if i == e.key r then some r else get t i)
  pub insert_fresh :
      (t : Table) (r : Row) (t' : Table) → insert t r ≡ some t' → get t (e.key r) ≡ none
  pub insert_duplicate :
      (t : Table) (r : Row)
      → insert t r ≡ none
      → (s : Row) × (get t (e.key s) ≡ some s) × ((e.key r ≡ e.key s) ⊎ (e.clash r s ≡ true))
  pub get-save :
      (t : Table) (r : Row) (t' : Table) (i : ℕ)
      → save t r ≡ some t'
      → get t' i ≡ (if i == e.key r then some r else get t i)
  pub save_duplicate :
      (t : Table) (r : Row)
      → save t r ≡ none
      → (s : Row) × (get t (e.key s) ≡ some s) × (e.key s ≢ e.key r) × (e.clash r s ≡ true)
  pub get-remove :
      (t : Table) (r : Row) (i : ℕ) → get (remove t r) i ≡ (if i == e.key r then none else get t i)
