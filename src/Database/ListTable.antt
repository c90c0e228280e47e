-- ===== src/Database/ListTable.antt =====
-- Tables as lists of rows: an implementation of the repositories, which shows that the interface
-- can be met and on which the examples run.
use ki_ticket.Base.{
  ℕ, ◌≡◌, ◌≢◌, ◌⊎◌, refl, sym, ap, ◌∙◌, Bool, true, false, not, ◌&&◌, Option, none, some, List, [],
  ◌∷◌, map, arith, inl, inr, find, select, all, In, Distinct, In-select, find-In, find-none, all-In,
  all-false, In-of_map, Bool-cases, ◌==◌, if◌then◌else◌,
}
use ki_ticket.Database.Interface.{Entity, Repository}

module _ {Row : Type 0} (e : Entity Row) where
  abbrev pub compatible : Row → Row → Bool
  compatible r s = not (e.key r == e.key s) && not (e.clash r s)

  abbrev pub valid : List Row → Bool
  valid [] = true
  valid (r ∷ rs) = all (compatible r) rs && valid rs

  abbrev pub Rows : Type 0
  Rows = (rows : List Row) × (valid rows ≡ true)

  abbrev pub at_key : ℕ → Row → Bool
  at_key i r = i == e.key r

  abbrev pub without : Row → List Row → List Row
  without r = select (λ s. not (e.key s == e.key r))

  all-select : (p q : Row → Bool) (rs : List Row) → all p rs ≡ true → all p (select q rs) ≡ true
  all-select p q [] h = refl
  all-select p q (r ∷ rs) h = ground (arith, all-select p q rs)

  pub valid-select : (q : Row → Bool) (rs : List Row) → valid rs ≡ true → valid (select q rs) ≡ true
  valid-select q [] h = refl
  valid-select q (r ∷ rs) h = ground (arith, valid-select q rs, all-select (compatible r) q rs)

  -- A row of a valid list is the one that is found under its key.
  pub find-key :
      (rs : List Row) (r : Row) → valid rs ≡ true → In r rs → find (at_key (e.key r)) rs ≡ some r
  find-key [] r h m = elim m [ ]
  find-key (s ∷ rs) r h (inl q) = rw q (ground arith)
  find-key (s ∷ rs) r h (inr m) = ground (arith, find-key rs r, all-In (compatible s) rs r, m)

  find-compatible :
      (rs : List Row) (r s : Row)
      → ((a b : Row) → e.clash a b ≡ e.clash b a)
      → valid rs ≡ true
      → In r rs
      → In s rs
      → e.key r ≢ e.key s
      → e.clash r s ≡ false
  find-compatible [] r s c h m n d = elim m [ ]
  find-compatible (x ∷ rs) r s c h (inl p) (inl q) d = absurd (d (ap e.key (p ∙ sym q)))
  find-compatible (x ∷ rs) r s c h (inl p) (inr n) d =
      rw p (ground (arith, all-In (compatible x) rs s, n))
  find-compatible (x ∷ rs) r s c h (inr m) (inl q) d =
      rw (q, c r x) (ground (arith, all-In (compatible x) rs r, m))
  find-compatible (x ∷ rs) r s c h (inr m) (inr n) d = find-compatible rs r s c (ground arith) m n d

  -- Of rows that are compatible with one another, none is in the list twice.
  pub Distinct-select :
      (p : Row → Bool) (rs : List Row) → valid rs ≡ true → Distinct (map e.key (select p rs))
  Distinct-select p [] h = tt
  Distinct-select p (r ∷ rs) h = elim (Bool-cases (p r)) [
    | inl t ↦ rw t (fresh, Distinct-select p rs (ground arith))
    | inr t ↦ rw t (Distinct-select p rs (ground arith))
  ]
    where
      fresh : ¬ In (e.key r) (map e.key (select p rs))
      fresh m =
          let (s, n, q) = In-of_map e.key (e.key r) (select p rs) m in
          ground (arith, all-In (compatible r) rs s, (In-select p s rs).0 n)

  all-compatible :
      (r : Row) (rs : List Row)
      → all (compatible r) rs ≡ false
      → (s : Row) × In s rs × ((e.key r ≡ e.key s) ⊎ (e.clash r s ≡ true))
  all-compatible r rs h = let (s, m, q) = all-false (compatible r) rs h in (s, m, ground arith)

  abbrev pub checked : (rs : List Row) (b : Bool) → valid rs ≡ b → Option Rows
  checked rs true h = some (rs, h)
  checked rs false h = none

  pub checked-some :
      (rs : List Row) (b : Bool) (h : valid rs ≡ b) (t : Rows) → checked rs b h ≡ some t → t.0 ≡ rs
  checked-some rs true h t q = ap (λ (o : Option Rows). rows_of o) (sym q)
    where
      rows_of : Option Rows → List Row
      rows_of (some u) = u.0
      rows_of none = rs
  checked-some rs false h t q = cc

  pub checked-none :
      (rs : List Row) (b : Bool) (h : valid rs ≡ b) → checked rs b h ≡ none → valid rs ≡ false
  checked-none rs true h q = cc
  checked-none rs false h q = h

  abbrev pub upsert : Row → List Row → List Row
  upsert r rs = r ∷ without r rs

  pub get-without :
      (r : Row) (rs : List Row) (i : ℕ)
      → find (at_key i) (without r rs) ≡ (if i == e.key r then none else find (at_key i) rs)
  get-without r [] i = ground arith
  get-without r (s ∷ rs) i = ground (arith, get-without r rs i)

  pub upsert-clash :
      (r : Row) (rs : List Row)
      → valid rs ≡ true
      → valid (upsert r rs) ≡ false
      → (s : Row) × (find (at_key (e.key s)) rs ≡ some s)
        × (e.key s ≢ e.key r)
        × (e.clash r s ≡ true)
  upsert-clash r rs v h =
      let (s, m, q) =
        all-compatible r (without r rs)
          (ground (arith, valid-select (λ s. not (e.key s == e.key r)) rs)) in
      let n = (In-select _ s rs).0 m in
      let d : e.key s ≢ e.key r = ground arith in (s, find-key rs s v n.0, d, ground arith)

  abbrev pub IsSymmetric : Type 0
  IsSymmetric = (a b : Row) → e.clash a b ≡ e.clash b a

  pub key_unique :
      (t : Rows) (i j : ℕ) (r s : Row)
      → IsSymmetric
      → find (at_key i) t.0 ≡ some r
      → find (at_key j) t.0 ≡ some s
      → e.clash r s ≡ true
      → i ≡ j
  key_unique t i j r s c h k q =
      let m = find-In (at_key i) t.0 r h in
      let n = find-In (at_key j) t.0 s k in
      elim (Bool-cases (e.key r == e.key s)) [
        | inl same ↦ ground arith
        | inr differ ↦ ground (arith, find-compatible t.0 r s c t.1 m.0 n.0)
      ]

  pub key-find : (rs : List Row) (i : ℕ) (r : Row) → find (at_key i) rs ≡ some r → e.key r ≡ i
  key-find rs i r h = ground (arith, find-In (at_key i) rs r)

  pub find-upsert :
      (r : Row) (rs : List Row) (i : ℕ)
      → find (at_key i) (upsert r rs) ≡ (if i == e.key r then some r else find (at_key i) rs)
  find-upsert r rs i = ground (arith, get-without r rs i)

  pub find-cons :
      (r : Row) (rs : List Row) (i : ℕ)
      → find (at_key i) (r ∷ rs) ≡ (if i == e.key r then some r else find (at_key i) rs)
  find-cons r rs i = refl

  pub checked-valid :
      (rs : List Row) (b : Bool) (h : valid rs ≡ b) (t : Rows)
      → checked rs b h ≡ some t
      → valid rs ≡ true
  checked-valid rs true h t q = h
  checked-valid rs false h t q = cc

  find-absent :
      (r : Row) (rs : List Row) → all (compatible r) rs ≡ true → find (at_key (e.key r)) rs ≡ none
  find-absent r [] h = refl
  find-absent r (s ∷ rs) h = ground (arith, find-absent r rs)

  pub find-fresh :
      (r : Row) (rs : List Row) → valid (r ∷ rs) ≡ true → find (at_key (e.key r)) rs ≡ none
  find-fresh r rs h = find-absent r rs (ground arith)

  pub cons-clash :
      (r : Row) (rs : List Row)
      → valid rs ≡ true
      → valid (r ∷ rs) ≡ false
      → (s : Row) × (find (at_key (e.key s)) rs ≡ some s)
        × ((e.key r ≡ e.key s) ⊎ (e.clash r s ≡ true))
  cons-clash r rs v h =
      let (s, m, q) = all-compatible r rs (ground arith) in (s, find-key rs s v m, q)

  unfoldable pub list_repository : IsSymmetric → Repository e
  list_repository c = record {
    Table = Rows;
    get = λ t i. find (at_key i) t.0;
    find_one_by = λ t p. find p t.0;
    find_by = λ t p. select p t.0;
    insert = λ t r. checked (r ∷ t.0) (valid (r ∷ t.0)) refl;
    save = λ t r. checked (upsert r t.0) (valid (upsert r t.0)) refl;
    remove = λ t r. (without r t.0, valid-select _ t.0 t.1);
    key-get = λ t i r h. key-find t.0 i r h;
    unique = λ t i j r s h k q. key_unique t i j r s c h k q;
    found = λ t p r h. let m = find-In p t.0 r h in (find-key t.0 r t.1 m.0, m.1);
    missing = λ t p i r h k. find-none p t.0 r h (find-In (at_key i) t.0 r k).0;
    listed = λ t p r m. let n = (In-select p r t.0).0 m in (find-key t.0 r t.1 n.0, n.1);
    complete = λ t p i r h q. (In-select p r t.0).1 ((find-In (at_key i) t.0 r h).0, q);
    distinct = λ t p. Distinct-select p t.0 t.1;
    get-insert =
        λ t r t' i h. rw (checked-some (r ∷ t.0) (valid (r ∷ t.0)) refl t' h) (find-cons r t.0 i);
    insert_fresh =
        λ t r t' h. find-fresh r t.0 (checked-valid (r ∷ t.0) (valid (r ∷ t.0)) refl t' h);
    insert_duplicate =
        λ t r h. cons-clash r t.0 t.1 (checked-none (r ∷ t.0) (valid (r ∷ t.0)) refl h);
    get-save = λ t r t' i h.
        rw (checked-some (upsert r t.0) (valid (upsert r t.0)) refl t' h) (find-upsert r t.0 i);
    save_duplicate =
        λ t r h. upsert-clash r t.0 t.1 (checked-none (upsert r t.0) (valid (upsert r t.0)) refl h);
    get-remove = λ t r i. get-without r t.0 i;
  }
